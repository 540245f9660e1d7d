-- ===== src/Server/Running/Preservation.antt =====
-- Every step of the goroutines keeps the invariant.
use nodefoundry.Base.{
  ◌≡◌, refl, Bool-cases, ltb, subst, ◌≤◌, if◌then◌else◌, true, false, Option, none, some, List,
  length, arith, inl, inr,
}
use nodefoundry.Server.Running.{
  StartError, http_failed, dhcp_listen_failed, dhcp_address_failed, mqtt_connect_failed,
  mqtt_timeout, Group, IsGroup, RunPhase, selecting, shutting_down, draining, closing_db, ended,
  Process, first_error, on_connect, ProcessStep, DhcpStep, MqttStep, HttpStep, RunStep, dhcp_serves,
  dhcp_fails, dhcp_stops, mqtt_connects, mqtt_calls_back, mqtt_serves, mqtt_fails, mqtt_times_out,
  mqtt_stops, http_serves, http_fails, http_stops, start_returns, signal, run_stops, run_fails,
  http_shuts_down, http_drained, db_closes, ProcessReach, begins, continues, by_dhcp, by_mqtt,
  by_http, by_run,
}
use nodefoundry.Server.Running.Invariant.{
  PhaseSound, IsSound, signal-PhaseSound, start-PhaseSound, returns-IsSound, quiet-IsSound,
  waiting_one, waiting_none,
}

module _ (group : Group) (laws : IsGroup group) where
  wait_lem :
      (h : List (Option StartError)) (r : Option StartError)
      → length h ≤ 3
      → group.wait 3 h ≡ some r
      → (length h ≡ 3) × (r ≡ first_error h)
  wait_lem h r few waited = elim (Bool-cases (ltb (length h) 3)) [
    | inl less ↦ let blocked = laws.wait_blocks 3 h (ground arith) in absurd (ground arith)
    | inr more ↦
        let all : length h ≡ 3 = ground arith in
        let done = laws.wait_returns 3 h all in (all, ground arith)
  ]

  -- The phase of a sound process, when it is known.
  pub phase_at :
      (p : Process) (phase : RunPhase)
      → IsSound p
      → p.run ≡ phase
      → PhaseSound p.sig_chan p.cancelled p.http_closed p.db_close p.err_chan phase
  phase_at p phase sound at =
      subst (PhaseSound p.sig_chan p.cancelled p.http_closed p.db_close p.err_chan) at sound.phase

  -- `Run` gets an error from `Start` before a signal, since the HTTP server was not shut down.
  fails-phase :
      (p : Process) (r : Option StartError)
      → IsSound p
      → p.run ≡ selecting
      → p.err_chan ≡ some r
      → PhaseSound p.sig_chan true p.http_closed p.db_close p.err_chan (ended r)
  fails-phase p (some e) sound at there =
      let (still, db_close) = phase_at p selecting sound at in (there, still, db_close)
  fails-phase p none sound at there =
      let (still, db_close) = phase_at p selecting sound at in
      let (all, is) = sound.reported none there in
      let (e, failed) =
        sound.http_error (waiting_none p.http (omega (arith, sound.counted))) still in
      absurd (ground arith)

  DhcpStep-IsSound : {p q : Process} → DhcpStep group p q → IsSound p → IsSound q
  DhcpStep-IsSound {p} (dhcp_serves at) sound =
      quiet-IsSound p _ sound refl refl (λ gone closed. (gone, closed)) (ground arith) sound.phase
  DhcpStep-IsSound {p} (dhcp_fails resolved at) sound =
      returns-IsSound p _ (some (if resolved then dhcp_listen_failed else dhcp_address_failed))
        sound refl (ground arith) refl (λ gone closed. inl (gone, closed)) sound.phase
  DhcpStep-IsSound {p} (dhcp_stops at is) sound =
      returns-IsSound p _ none sound refl (ground arith) refl (λ gone closed. inl (gone, closed))
        sound.phase

  MqttStep-IsSound : {p q : Process} → MqttStep group p q → IsSound p → IsSound q
  unfolding on_connect
  MqttStep-IsSound {p} (mqtt_connects at) sound =
      quiet-IsSound p _ sound refl refl (λ gone closed. (gone, closed)) (ground arith) sound.phase
  MqttStep-IsSound {p} (mqtt_calls_back true) sound =
      quiet-IsSound p _ sound refl refl (λ gone closed. (gone, closed)) refl sound.phase
  MqttStep-IsSound {p} (mqtt_calls_back false) sound = sound
  MqttStep-IsSound {p} (mqtt_serves at there) sound =
      quiet-IsSound p _ sound refl refl (λ gone closed. (gone, closed)) (ground arith) sound.phase
  MqttStep-IsSound {p} (mqtt_fails at) sound =
      returns-IsSound p _ (some mqtt_connect_failed) sound refl (ground arith) refl
        (λ gone closed. inl (gone, closed)) sound.phase
  MqttStep-IsSound {p} (mqtt_times_out at) sound =
      returns-IsSound p _ (some mqtt_timeout) sound refl (ground arith) refl
        (λ gone closed. inl (gone, closed)) sound.phase
  MqttStep-IsSound {p} (mqtt_stops at is) sound =
      returns-IsSound p _ none sound refl (ground arith) refl (λ gone closed. inl (gone, closed))
        sound.phase

  HttpStep-IsSound : {p q : Process} → HttpStep group p q → IsSound p → IsSound q
  HttpStep-IsSound {p} (http_serves at still) sound =
      quiet-IsSound p _ sound refl refl (λ gone closed. absurd (ground arith)) (ground arith)
        sound.phase
  HttpStep-IsSound {p} (http_fails still at) sound =
      returns-IsSound p _ (some http_failed) sound refl (omega (arith, waiting_one p.http at)) refl
        (λ gone closed. inr (http_failed, refl)) sound.phase
  HttpStep-IsSound {p} (http_stops closed at) sound =
      returns-IsSound p _ none sound refl (omega (arith, waiting_one p.http at)) refl
        (λ gone still. absurd (ground arith)) sound.phase

  RunStep-IsSound : {p q : Process} → RunStep group p q → IsSound p → IsSound q
  RunStep-IsSound {p} (start_returns r waited nil) sound = record {
    counted = sound.counted;
    reported = λ a h.
        let (all, is) = wait_lem p.results r (omega (arith, sound.counted)) waited in
        (all, ground arith);
    http_error = sound.http_error;
    phase =
        start-PhaseSound p.sig_chan p.cancelled p.http_closed p.db_close p.err_chan r p.run nil
          sound.phase;
  }
  RunStep-IsSound {p} signal sound =
      quiet-IsSound p _ sound refl refl (λ gone closed. (gone, closed)) refl
        (signal-PhaseSound p.sig_chan p.cancelled p.http_closed p.db_close p.err_chan p.run
          sound.phase)
  RunStep-IsSound {p} (run_stops at sig) sound =
      quiet-IsSound p _ sound refl refl (λ gone closed. (gone, closed)) refl
        (let (still, db_close) = phase_at p selecting sound at in (sig, refl, still, db_close))
  RunStep-IsSound {p} (run_fails r at there) sound =
      quiet-IsSound p _ sound refl refl (λ gone closed. (gone, closed)) refl
        (fails-phase p r sound at there)
  RunStep-IsSound {p} (http_shuts_down at) sound =
      quiet-IsSound p _ sound refl refl (λ gone closed. absurd (ground arith)) refl
        (let (sig, off, still, db_close) = phase_at p shutting_down sound at in
          (sig, off, refl, db_close))
  RunStep-IsSound {p} (http_drained at) sound =
      quiet-IsSound p _ sound refl refl (λ gone closed. (gone, closed)) refl
        (phase_at p draining sound at)
  RunStep-IsSound {p} (db_closes closes at) sound =
      quiet-IsSound p _ sound refl refl (λ gone closed. (gone, closed)) refl
        (let (sig, off, closed, db_close) = phase_at p closing_db sound at in
          (sig, off, closed, (closes, refl)))

  ProcessStep-IsSound : {p q : Process} → ProcessStep group p q → IsSound p → IsSound q
  ProcessStep-IsSound (by_dhcp st) sound = DhcpStep-IsSound st sound
  ProcessStep-IsSound (by_mqtt st) sound = MqttStep-IsSound st sound
  ProcessStep-IsSound (by_http st) sound = HttpStep-IsSound st sound
  ProcessStep-IsSound (by_run st) sound = RunStep-IsSound st sound

  pub reach-IsSound : {p q : Process} → ProcessReach group p q → IsSound p → IsSound q
  reach-IsSound begins sound = sound
  reach-IsSound (continues r st) sound = ProcessStep-IsSound st (reach-IsSound r sound)
