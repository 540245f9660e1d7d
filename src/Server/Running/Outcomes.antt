-- ===== src/Server/Running/Outcomes.antt =====
-- What `Run` returns, and when.
use nodefoundry.Base.{
  ◌≡◌, ◌⊎◌, ◌≢◌, refl, sym, Bool, true, Option, none, some, arith, inl, inr, Option-cases,
}
use nodefoundry.Server.Running.{
  StartError, Group, IsGroup, returned, offline, ended, Process, first_process, first_error,
  ProcessReach,
}
use nodefoundry.Server.Running.Invariant.{first_process-IsSound, waiting_none, mqtt_waiting_none}
use nodefoundry.Server.Running.Preservation.{phase_at, reach-IsSound}

module _ (group : Group) (laws : IsGroup group) where
  -- When `Run` returns without an error, a signal came, the HTTP server was shut down and
  -- `db.Close` was called. When it returns an error, that is the first error of the goroutines of
  -- `Start`, all of which have returned, and `db.Close` was not called.
  pub run_returns :
      {p : Process} (r : Option StartError)
      → ProcessReach group first_process p
      → p.run ≡ ended r
      → ((r ≡ none)
          × (p.sig_chan ≡ true)
          × (p.http_closed ≡ true)
          × ((b : Bool) × (p.db_close ≡ some b)))
        ⊎ ((e : StartError) × (r ≡ some e)
            × (first_error p.results ≡ some e)
            × (p.dhcp ≡ returned)
            × (p.mqtt ≡ offline)
            × (p.http ≡ returned)
            × (p.db_close ≡ none))
  run_returns {p} none reach at =
      let sound = reach-IsSound group laws reach first_process-IsSound in
      let (sig, off, closed, shut) = phase_at group laws p (ended none) sound at in
      inl (refl, sig, closed, shut)
  run_returns {p} (some e) reach at =
      let sound = reach-IsSound group laws reach first_process-IsSound in
      let (there, still, db_close) = phase_at group laws p (ended (some e)) sound at in
      let (all, is) = sound.reported (some e) there in
      inr (
        e,
        refl,
        sym is,
        waiting_none p.dhcp (omega (arith, sound.counted)),
        mqtt_waiting_none p.mqtt (omega (arith, sound.counted)),
        waiting_none p.http (omega (arith, sound.counted)),
        db_close,
      )

  -- While the HTTP server has not returned, neither has `Start`, and `Run` has returned no error,
  -- whatever the DHCP server and the MQTT client returned.
  pub failures_wait :
      {p : Process}
      → ProcessReach group first_process p
      → p.http ≢ returned
      → (p.err_chan ≡ none) × ((e : StartError) → p.run ≢ ended (some e))
  failures_wait {p} reach up =
      let sound = reach-IsSound group laws reach first_process-IsSound in
      let none_left : (r : Option StartError) → p.err_chan ≢ some r = λ r there.
        let (all, _) = sound.reported r there in
        up (waiting_none p.http (omega (arith, sound.counted))) in
      (
        elim (Option-cases p.err_chan) [
          | inl nil ↦ nil
          | inr (r, there) ↦ absurd (none_left r there)
        ],
        λ e at.
            let (there, _, _) = phase_at group laws p (ended (some e)) sound at in
            none_left (some e) there,
      )
