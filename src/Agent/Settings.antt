-- ===== src/Agent/Settings.antt =====
-- internal/agent/config/config.go: the settings of the agent, from the environment. `os.Getenv` and
-- `strconv.Atoi`, whose error is `none`, are arguments.
use nodefoundry.Base.{
  ℕ, ◌*◌, ◌≤◌, ◌<◌, ◌≡◌, refl, ◌∙◌, ◌-◌, ◌⊎◌, inl, inr, Bool-cases, ltb, ℤ, pos, negsuc, below,
  bits64, int64, times64, Option, none, some, [], if◌then◌else◌, Text, codes, text_eq, arith, false,
  ap,
}

pub record AgentConfig : Type 0 where
  pub mqtt_broker : Text
  pub log_level : Text
  pub mac : Text
  pub heartbeat_interval : ℤ

-- The interval of at least 10 seconds.
unfoldable pub clamp_interval : ℤ → ℤ
clamp_interval n = if below n 10 then pos 10 else n

-- `GetHeartbeatInterval`: nanoseconds, in 64 bits
unfoldable pub get_heartbeat_interval : AgentConfig → ℤ
get_heartbeat_interval c = times64 c.heartbeat_interval 1000000000

module _ (getenv : Text → Text) (atoi : Text → Option ℤ) where
  -- `getEnv`
  unfoldable pub get_env : Text → Text → Text
  get_env key default_val = if text_eq (getenv key) [] then default_val else getenv key

  -- `parseInt`
  unfoldable pub parse_int : Text → ℤ → ℤ
  parse_int s default_val = elim (atoi s) [ none ↦ default_val | some n ↦ n ]

  -- `LoadConfig`
  unfoldable pub load_config : AgentConfig
  unfolding get_env parse_int clamp_interval
  load_config = record {
    mqtt_broker = get_env (codes "NF_MQTT_BROKER") (codes "localhost:1883");
    log_level = get_env (codes "NF_LOG_LEVEL") (codes "info");
    mac = get_env (codes "NF_MAC") [];
    heartbeat_interval =
        clamp_interval (parse_int (get_env (codes "NF_HEARTBEAT_INTERVAL") (codes "30")) (pos 30));
  }

  load_config_interval :
      load_config.heartbeat_interval
      ≡ clamp_interval (parse_int (get_env (codes "NF_HEARTBEAT_INTERVAL") (codes "30")) (pos 30))
  unfolding load_config
  load_config_interval = refl

  get_env-set :
      (key default_val : Text)
      → text_eq (getenv key) [] ≡ false
      → get_env key default_val ≡ getenv key
  unfolding get_env
  get_env-set key default_val set = rw set refl

  parse_int-read : (t : Text) (default_val n : ℤ) → atoi t ≡ some n → parse_int t default_val ≡ n
  unfolding parse_int
  parse_int-read t default_val n reads = rw (reads, parse_int) refl

  -- A setting that is read, and is not too short, is the interval.
  pub interval_read :
      (m : ℕ)
      → text_eq (getenv (codes "NF_HEARTBEAT_INTERVAL")) [] ≡ false
      → atoi (getenv (codes "NF_HEARTBEAT_INTERVAL")) ≡ some (pos m)
      → 10 ≤ m
      → load_config.heartbeat_interval ≡ pos m
  unfolding clamp_interval
  interval_read m set reads enough =
      let key = getenv (codes "NF_HEARTBEAT_INTERVAL") in
      load_config_interval
      ∙ ap (λ t. clamp_interval (parse_int t (pos 30)))
          (get_env-set (codes "NF_HEARTBEAT_INTERVAL") (codes "30") set)
      ∙ ap clamp_interval (parse_int-read key (pos 30) (pos m) reads)
      ∙ ground arith

clamped : (n : ℤ) → (m : ℕ) × (10 ≤ m) × (clamp_interval n ≡ pos m)
unfolding clamp_interval
clamped (negsuc n) = (10, omega arith, refl)
clamped (pos n) = elim (Bool-cases (ltb n 10)) [
  | inl small ↦ (10, omega arith, rw small refl)
  | inr large ↦ (n, ground arith, rw large refl)
]

seconds_fit : (m : ℕ) → m ≤ 9223372036 → times64 (pos m) 1000000000 ≡ pos (m * 1000000000)
unfolding times64 bits64 int64
seconds_fit m fits = ground arith

-- Whatever the environment holds, the heartbeat interval is at least 10 seconds; it is the same number
-- of seconds as a duration, which the ticker takes, unless it is above 9223372036 seconds.
pub load_config_heartbeat :
    (getenv : Text → Text) (atoi : Text → Option ℤ)
    → (m : ℕ) × (10 ≤ m)
      × ((load_config getenv atoi).heartbeat_interval ≡ pos m)
      × ((get_heartbeat_interval (load_config getenv atoi) ≡ pos (m * 1000000000))
          ⊎ (9223372036 < m))
unfolding get_heartbeat_interval
load_config_heartbeat getenv atoi =
    let (m, enough, is) = clamped (
      parse_int getenv atoi (get_env getenv atoi (codes "NF_HEARTBEAT_INTERVAL") (codes "30"))
        (pos 30)) in
    let same : (load_config getenv atoi).heartbeat_interval ≡ pos m =
      load_config_interval getenv atoi ∙ is in
    (
      m,
      enough,
      same,
      elim (Bool-cases (ltb 9223372036 m)) [
        | inl large ↦ inr (ground arith)
        | inr fits ↦ inl (rw same (seconds_fit m (ground arith)))
      ],
    )

-- A longer interval wraps around: up to 18446744073 seconds it is negative.
pub long_interval-negative :
    (c : AgentConfig) (m : ℕ)
    → c.heartbeat_interval ≡ pos m
    → 9223372036 < m
    → m ≤ 18446744073
    → (n : ℕ) × (get_heartbeat_interval c ≡ negsuc n)
unfolding get_heartbeat_interval times64 bits64 int64
long_interval-negative c m is large fits =
    (18446744073709551615 - m * 1000000000, rw is (ground arith))
