-- ===== src/Server/Main.antt =====
-- cmd/nodefoundry/main.go: the process of the server, from its settings to its exit status. What `Run`
-- returns, if it is called, and whether the logging library builds the logger, are arguments.
mod Tests
use nodefoundry.Base.{
  ℕ, ◌≡◌, ◌⊎◌, inl, inr, refl, Result-cases, Bool, true, false, Option, none, some, Result, ok, err,
  if◌then◌else◌, Text, codes, text_eq, arith, ◌||◌, ℤ,
}
use nodefoundry.Config.{Environment, Config, load_config}
use nodefoundry.Config.Defaults.{load_config_lem}
use nodefoundry.Db.Bolt.{Bucket, Codec}
use nodefoundry.Server.{Network, Server, ServerError, new_server}
use nodefoundry.Server.Running.{
  StartError, Group, IsGroup, Process, first_process, ProcessReach, ended, first_error, returned,
  offline,
}
use nodefoundry.Server.Running.Outcomes.{run_returns}

pub data Level : Type 0 where
  debug_level info_level warn_level error_level : Level

-- The level that `newLogger` sets.
unfoldable pub log_level : Text → Level
log_level t =
    if text_eq t (codes "debug")
    then debug_level
    else if text_eq t (codes "info")
    then info_level
    else if text_eq t (codes "warn")
    then warn_level
    else if text_eq t (codes "error")
    then error_level
    else info_level

-- How a process ends: it panics, or exits with a status, having set a level in `newLogger`.
pub data Exit : Type 0 where
  panicked : Exit
  exits : Level → ℕ → Exit

module _ {Database Data : Type 0} (b : Bucket Database Data) (codec : Codec Data) (n : Network)
    (env : Environment ℤ) (opened : Option Database) where
  -- `main` once there is a logger; `logger.Fatal` exits with status 1.
  unfoldable pub main_with : Config ℤ → Option StartError → Exit
  unfolding log_level
  main_with c ran = elim (new_server b codec n c opened) [
    | err _ ↦ exits (log_level c.log_level) 1
    | ok srv ↦ elim ran [
      | some _ ↦ exits (log_level c.log_level) 1
      | none ↦ exits (log_level c.log_level) 0
    ]
  ]

  -- `main`, of whether the logging library builds the logger: `newLogger` exits with status 1 if not.
  unfoldable pub server_main : Bool → Option StartError → Exit
  unfolding main_with log_level
  server_main builds ran = elim (load_config env) [
    | none ↦ panicked
    | some c ↦ if builds then main_with c ran else exits (log_level c.log_level) 1
  ]

  -- What has happened when the process exits with status 0: there is a logger and a server, a signal
  -- came, the HTTP server was shut down and `db.Close` was called.
  abbrev pub HasStopped : Config ℤ → Bool → Process → Type 0
  HasStopped c builds p =
      (builds ≡ true)
      × (srv : Server Database) × (new_server b codec n c opened ≡ ok srv)
      × (p.sig_chan ≡ true)
      × (p.http_closed ≡ true)
      × (closes : Bool) × (p.db_close ≡ some closes)

  -- Why the process exits with status 1: the logger cannot be built, `NewServer` fails, or there is a
  -- server and the goroutines of `Start` have all returned, one of them an error.
  abbrev pub HasFailed : Config ℤ → Bool → Process → Type 0
  HasFailed c builds p =
      (builds ≡ false)
      ⊎ (((builds ≡ true) × (e : ServerError) × (new_server b codec n c opened ≡ err e))
          ⊎ ((builds ≡ true)
              × (srv : Server Database) × (new_server b codec n c opened ≡ ok srv)
              × (e : StartError) × (first_error p.results ≡ some e)
              × (p.dhcp ≡ returned)
              × (p.mqtt ≡ offline)
              × (p.http ≡ returned)))

  -- The server never panics at its start, whatever the environment holds. When it exits with status 0,
  -- there was a logger and a server, a signal came, the HTTP server was shut down and `db.Close` was
  -- called; when it exits with status 1, then the logger could not be built, `NewServer` failed, or
  -- there was a server and the goroutines of `Start` have all returned, one of them an error.
  pub server_main-exits :
      (group : Group) (laws : IsGroup group) {p : Process} (builds : Bool) (ran : Option StartError)
      → ProcessReach group first_process p
      → p.run ≡ ended ran
      → (c : Config ℤ) × (load_config env ≡ some c)
        × (((server_main builds ran ≡ exits (log_level c.log_level) 0) × HasStopped c builds p)
            ⊎ ((server_main builds ran ≡ exits (log_level c.log_level) 1) × HasFailed c builds p))
  unfolding server_main main_with
  server_main-exits group laws false ran reach at =
      let (c, loaded, _, _, _, _) = load_config_lem env in (c, loaded, inr (ground arith, inl refl))
  server_main-exits group laws true ran reach at =
      let (c, loaded, _, _, _, _) = load_config_lem env in
      elim (Result-cases (new_server b codec n c opened)) [
        | inr (e, failed) ↦ (c, loaded, inr (ground arith, inr (inl (refl, e, failed))))
        | inl (srv, made) ↦ elim (run_returns group laws ran reach at) [
          | inl (nil, sig, closed, shut) ↦
              let (closes, is) = shut in
              (c, loaded, inl (ground arith, (refl, srv, made, sig, closed, closes, is)))
          | inr (e, is, error, dhcp, mqtt, http, _) ↦ (
            c,
            loaded,
            inr (ground arith, inr (inr (refl, srv, made, e, error, dhcp, mqtt, http))),
          )
        ]
      ]
