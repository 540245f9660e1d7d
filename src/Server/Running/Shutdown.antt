-- ===== src/Server/Running/Shutdown.antt =====
-- From every state that `Run` reaches, a signal can end it.
use nodefoundry.Base.{
  ◌≡◌, refl, ◌∙◌, true, false, ◌⊎◌, ◌≢◌, inl, inr, Option, none, some, List, ◌∷◌, Option-cases,
  arith,
}
use nodefoundry.Server.Running.{
  StartError, Group, IsGroup, Service, starting, serving, returned, MqttService, connecting,
  confirming, online, offline, RunPhase, selecting, shutting_down, draining, closing_db, ended,
  Process, first_process, is_done, first_error, on_connect, dhcp_serves, dhcp_stops, mqtt_connects,
  mqtt_calls_back, mqtt_serves, mqtt_stops, http_stops, signal, run_stops, http_shuts_down,
  http_drained, db_closes, ProcessReach, begins, continues, by_dhcp, by_mqtt, by_http, by_run,
}
use nodefoundry.Server.Running.Invariant.{IsSound, first_process-IsSound}
use nodefoundry.Server.Running.Preservation.{reach-IsSound, phase_at}

module _ (group : Group) where
  reach_trans :
      {p q r : Process} → ProcessReach group p q → ProcessReach group q r → ProcessReach group p r
  reach_trans first begins = first
  reach_trans first (continues more st) = continues (reach_trans first more) st

  is_done_lem : (p : Process) → p.cancelled ≡ true → is_done group p ≡ true
  unfolding is_done
  is_done_lem p off = rw off refl

  -- A goroutine that returns without an error leaves the first error as it is.
  first_error-none : (h : List (Option StartError)) → first_error (none ∷ h) ≡ first_error h
  unfolding first_error
  first_error-none h = elim (Option-cases (first_error h)) [
    | inl nil ↦ rw nil refl
    | inr (e, found) ↦ rw found refl
  ]

  -- Steps that leave `Run` where it is and add no error lead to a state with the goroutines in these
  -- places.
  Leads : Process → Service → MqttService → Service → Type 0
  Leads p dhcp mqtt http =
      (q : Process) × ProcessReach group p q
      × (q.dhcp ≡ dhcp)
      × (q.mqtt ≡ mqtt)
      × (q.http ≡ http)
      × (q.run ≡ p.run)
      × (q.cancelled ≡ p.cancelled)
      × (q.http_closed ≡ p.http_closed)
      × (first_error q.results ≡ first_error p.results)

  Leads-trans :
      {p q : Process} (s : Service) (m : MqttService) (t : Service)
      → ProcessReach group p q
      → q.run ≡ p.run
      → q.cancelled ≡ p.cancelled
      → q.http_closed ≡ p.http_closed
      → first_error q.results ≡ first_error p.results
      → Leads q s m t
      → Leads p s m t
  unfolding Leads
  Leads-trans s m t to_q run off closed error
        (r, to_r, dhcp, mqtt, http, run', off', closed', error') =
      (
        r,
        reach_trans to_q to_r,
        dhcp,
        mqtt,
        http,
        run' ∙ run,
        off' ∙ off,
        closed' ∙ closed,
        error' ∙ error,
      )

  dhcp_served :
      (p : Process) → p.dhcp ≡ serving → p.cancelled ≡ true → Leads p returned p.mqtt p.http
  unfolding Leads
  dhcp_served p is off = (
    _,
    continues begins (by_dhcp (dhcp_stops is (is_done_lem p off))),
    refl,
    refl,
    refl,
    refl,
    refl,
    refl,
    first_error-none p.results,
  )

  dhcp_ends :
      (p : Process) (s : Service) → p.dhcp ≡ s → p.cancelled ≡ true → Leads p returned p.mqtt p.http
  unfolding Leads
  dhcp_ends p starting is off =
      Leads-trans returned p.mqtt p.http (continues begins (by_dhcp (dhcp_serves is))) refl refl
        refl refl (dhcp_served (record p { dhcp = serving }) refl off)
  dhcp_ends p serving is off = dhcp_served p is off
  dhcp_ends p returned is off = (p, begins, is, refl, refl, refl, refl, refl, refl)

  mqtt_served : (p : Process) → p.mqtt ≡ online → p.cancelled ≡ true → Leads p p.dhcp offline p.http
  unfolding Leads
  mqtt_served p is off = (
    _,
    continues begins (by_mqtt (mqtt_stops is (is_done_lem p off))),
    refl,
    refl,
    refl,
    refl,
    refl,
    refl,
    first_error-none p.results,
  )

  -- The library calls back, and the wait is over.
  mqtt_confirmed :
      (p : Process) → p.mqtt ≡ confirming → p.cancelled ≡ true → Leads p p.dhcp offline p.http
  unfolding on_connect
  mqtt_confirmed p is off =
      let called : Process = record p { connect_chan = true } in
      Leads-trans p.dhcp offline p.http
        (continues (continues begins (by_mqtt (mqtt_calls_back true)))
          (by_mqtt (mqtt_serves is refl)))
        refl refl refl refl
        (mqtt_served (record called { mqtt = online; connect_chan = false }) refl off)

  mqtt_ends :
      (p : Process) (s : MqttService)
      → p.mqtt ≡ s
      → p.cancelled ≡ true
      → Leads p p.dhcp offline p.http
  unfolding Leads
  mqtt_ends p connecting is off =
      Leads-trans p.dhcp offline p.http (continues begins (by_mqtt (mqtt_connects is))) refl refl
        refl refl (mqtt_confirmed (record p { mqtt = confirming }) refl off)
  mqtt_ends p confirming is off = mqtt_confirmed p is off
  mqtt_ends p online is off = mqtt_served p is off
  mqtt_ends p offline is off = (p, begins, refl, is, refl, refl, refl, refl, refl)

  http_served :
      (p : Process) → p.http ≢ returned → p.http_closed ≡ true → Leads p p.dhcp p.mqtt returned
  unfolding Leads
  http_served p up closed = (
    _,
    continues begins (by_http (http_stops closed up)),
    refl,
    refl,
    refl,
    refl,
    refl,
    refl,
    first_error-none p.results,
  )

  http_ends :
      (p : Process) (s : Service)
      → p.http ≡ s
      → p.http_closed ≡ true
      → Leads p p.dhcp p.mqtt returned
  unfolding Leads
  http_ends p starting is closed = http_served p (λ e. absurd (ground arith)) closed
  http_ends p serving is closed = http_served p (λ e. absurd (ground arith)) closed
  http_ends p returned is closed = (p, begins, refl, refl, is, refl, refl, refl, refl)

  all_end :
      (p : Process) → p.cancelled ≡ true → p.http_closed ≡ true → Leads p returned offline returned
  unfolding Leads
  all_end p off closed =
      let (q, to_q, dhcp, mqtt, http, run, off', closed', error) = dhcp_ends p p.dhcp refl off in
      let (r, to_r, dhcp', mqtt', http', run', off'', closed'', error') =
        mqtt_ends q q.mqtt refl (off' ∙ off) in
      let (t, to_t, dhcp'', mqtt'', http'', run'', off''', closed''', error'') =
        http_ends r r.http refl (closed'' ∙ (closed' ∙ closed)) in
      (
        t,
        reach_trans (reach_trans to_q to_r) to_t,
        dhcp'' ∙ (dhcp' ∙ dhcp),
        mqtt'' ∙ mqtt',
        http'',
        run'' ∙ (run' ∙ run),
        off''' ∙ (off'' ∙ off'),
        closed''' ∙ (closed'' ∙ closed'),
        error'' ∙ (error' ∙ error),
      )

  -- `Run` gets to the drain of the HTTP server, or to the database, with a signal if it needs one.
  Closing : Process → Type 0
  Closing p =
      (q : Process) × ProcessReach group p q
      × (q.cancelled ≡ true)
      × (q.http_closed ≡ true)
      × (first_error q.results ≡ first_error p.results)
      × ((q.run ≡ draining) ⊎ (q.run ≡ closing_db))

  module _ (laws : IsGroup group) where
    closing :
        (p : Process) (phase : RunPhase)
        → p.run ≡ phase
        → IsSound p
        → ((r : Option StartError) → phase ≢ ended r)
        → Closing p
    unfolding Closing
    closing p selecting at sound going = (
      _,
      continues (continues (continues begins (by_run signal)) (by_run (run_stops at refl)))
          (by_run (http_shuts_down refl)),
      refl,
      refl,
      refl,
      inl refl,
    )
    closing p shutting_down at sound going =
        let (sig, off, still, there) = phase_at group laws p shutting_down sound at in
        (_, continues begins (by_run (http_shuts_down at)), off, refl, refl, inl refl)
    closing p draining at sound going =
        let (sig, off, closed, there) = phase_at group laws p draining sound at in
        (p, begins, off, closed, refl, inl at)
    closing p closing_db at sound going =
        let (sig, off, closed, there) = phase_at group laws p closing_db sound at in
        (p, begins, off, closed, refl, inr at)
    closing p (ended r) at sound going = absurd (going r refl)

    finishes :
        (p : Process)
        → ((p.run ≡ draining) ⊎ (p.run ≡ closing_db))
        → (q : Process) × ProcessReach group p q
          × (q.run ≡ ended none)
          × (q.db_close ≡ some true)
          × (q.http_closed ≡ p.http_closed)
          × (first_error q.results ≡ first_error p.results)
          × (q.dhcp ≡ p.dhcp)
          × (q.mqtt ≡ p.mqtt)
          × (q.http ≡ p.http)
    finishes p (inl at) = (
      _,
      continues (continues begins (by_run (http_drained at))) (by_run (db_closes true refl)),
      refl,
      refl,
      refl,
      refl,
      refl,
      refl,
      refl,
    )
    finishes p (inr at) =
        (_, continues begins (by_run (db_closes true at)), refl, refl, refl, refl, refl, refl, refl)

    -- From every state that the server reaches and in which `Run` has not ended, a signal and further
    -- steps lead to a state in which `Run` has returned without an error, the HTTP server was shut down
    -- and the database is closed, and the three goroutines of `Start` have returned, none with an error
    -- that was not there before: what `Start` reports first is what it was.
    pub run_can_end :
        {p : Process}
        → ProcessReach group first_process p
        → ((r : Option StartError) → p.run ≢ ended r)
        → (q : Process) × ProcessReach group p q
          × (q.run ≡ ended none)
          × (q.db_close ≡ some true)
          × (q.http_closed ≡ true)
          × (first_error q.results ≡ first_error p.results)
          × (q.dhcp ≡ returned)
          × (q.mqtt ≡ offline)
          × (q.http ≡ returned)
    unfolding Leads Closing
    run_can_end {p} reach going =
        let sound = reach-IsSound group laws reach first_process-IsSound in
        let (q, to_q, off, closed, error, where_q) = closing p p.run refl sound going in
        let (r, to_r, dhcp, mqtt, http, run, _, closed', error') = all_end q off closed in
        let (t, to_t, over, shut, closed'', error'', dhcp', mqtt', http') =
          finishes r (elim where_q [ inl at ↦ inl (run ∙ at) | inr at ↦ inr (run ∙ at) ]) in
        (
          t,
          reach_trans to_q (reach_trans to_r to_t),
          over,
          shut,
          closed'' ∙ (closed' ∙ closed),
          error'' ∙ (error' ∙ error),
          dhcp' ∙ dhcp,
          mqtt' ∙ mqtt,
          http' ∙ http,
        )
