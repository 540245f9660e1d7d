-- ===== src/Config/Samples.antt =====
-- An empty environment, for the tests of the settings and of the server.
use nodefoundry.Base.{none, [], ℤ, pos}
use nodefoundry.Config.{Environment}

abbrev pub empty_environment : Environment ℤ
empty_environment = record {
  getenv = λ key. [];
  atoi = λ t. none;
  trim_space = λ t. t;
  to_lower = λ t. t;
  int = λ n. pos n;
}
