-- ===== src/Server/Running/Invariant.antt =====
-- What holds in every state that `Run` reaches.
use nodefoundry.Base.{
  ℕ, ◌+◌, ◌≡◌, ◌⊎◌, ◌≢◌, refl, sym, ◌∙◌, Bool, true, false, Option, none, some, List, ◌∷◌, length,
  arith, inl, inr, Option-cases,
}
use nodefoundry.Server.Running.{
  StartError, Service, starting, serving, returned, MqttService, connecting, confirming, online,
  offline, RunPhase, selecting, shutting_down, draining, closing_db, ended, Process, first_process,
  first_error,
}

-- The functions of the group that have not returned.
abbrev pub waiting : Service → ℕ
waiting returned = 0
waiting _ = 1

abbrev pub mqtt_waiting : MqttService → ℕ
mqtt_waiting offline = 0
mqtt_waiting _ = 1

-- What holds at a phase of `Run`, of whether a signal came, `cancel` was called, the HTTP server was
-- shut down, `db.Close` was called, and of what `Start` returned.
abbrev pub PhaseSound :
    Bool → Bool → Bool → Option Bool → Option (Option StartError) → RunPhase → Type 0
PhaseSound sig cancelled closed db_close chan selecting = (closed ≡ false) × (db_close ≡ none)
PhaseSound sig cancelled closed db_close chan shutting_down =
    (sig ≡ true) × (cancelled ≡ true) × (closed ≡ false) × (db_close ≡ none)
PhaseSound sig cancelled closed db_close chan draining =
    (sig ≡ true) × (cancelled ≡ true) × (closed ≡ true) × (db_close ≡ none)
PhaseSound sig cancelled closed db_close chan closing_db =
    (sig ≡ true) × (cancelled ≡ true) × (closed ≡ true) × (db_close ≡ none)
PhaseSound sig cancelled closed db_close chan (ended none) =
    (sig ≡ true) × (cancelled ≡ true) × (closed ≡ true) × ((b : Bool) × (db_close ≡ some b))
PhaseSound sig cancelled closed db_close chan (ended (some e)) =
    (chan ≡ some (some e)) × (closed ≡ false) × (db_close ≡ none)

pub record IsSound (p : Process) : Type 0 where
  pub counted : waiting p.dhcp + (mqtt_waiting p.mqtt + (waiting p.http + length p.results)) ≡ 3
  pub reported :
      (r : Option StartError)
      → p.err_chan ≡ some r
      → (length p.results ≡ 3) × (r ≡ first_error p.results)
  pub http_error :
      p.http ≡ returned
      → p.http_closed ≡ false
      → (e : StartError) × (first_error p.results ≡ some e)
  pub phase : PhaseSound p.sig_chan p.cancelled p.http_closed p.db_close p.err_chan p.run

pub first_process-IsSound : IsSound first_process
first_process-IsSound = record {
  counted = refl;
  reported = λ r h. absurd (ground arith);
  http_error = λ h. absurd (ground arith);
  phase = (refl, refl);
}

pub signal-PhaseSound :
    (sig cancelled closed : Bool) (db_close : Option Bool) (chan : Option (Option StartError))
    (phase : RunPhase)
    → PhaseSound sig cancelled closed db_close chan phase
    → PhaseSound true cancelled closed db_close chan phase
signal-PhaseSound sig cancelled closed db_close chan selecting h = h
signal-PhaseSound sig cancelled closed db_close chan shutting_down (_, a, b, c) = (refl, a, b, c)
signal-PhaseSound sig cancelled closed db_close chan draining (_, a, b, c) = (refl, a, b, c)
signal-PhaseSound sig cancelled closed db_close chan closing_db (_, a, b, c) = (refl, a, b, c)
signal-PhaseSound sig cancelled closed db_close chan (ended none) (_, a, b, c) = (refl, a, b, c)
signal-PhaseSound sig cancelled closed db_close chan (ended (some e)) h = h

pub start-PhaseSound :
    (sig cancelled closed : Bool) (db_close : Option Bool) (chan : Option (Option StartError))
    (r : Option StartError) (phase : RunPhase)
    → chan ≡ none
    → PhaseSound sig cancelled closed db_close chan phase
    → PhaseSound sig cancelled closed db_close (some r) phase
start-PhaseSound sig cancelled closed db_close chan r selecting nil h = h
start-PhaseSound sig cancelled closed db_close chan r shutting_down nil h = h
start-PhaseSound sig cancelled closed db_close chan r draining nil h = h
start-PhaseSound sig cancelled closed db_close chan r closing_db nil h = h
start-PhaseSound sig cancelled closed db_close chan r (ended none) nil h = h
start-PhaseSound sig cancelled closed db_close chan r (ended (some e)) nil (is, _, _) =
    absurd (ground arith)

-- A later result does not change the first error.
first_error-later :
    (r : Option StartError) (h : List (Option StartError)) (e : StartError)
    → first_error h ≡ some e
    → first_error (r ∷ h) ≡ some e
unfolding first_error
first_error-later r h e found = rw found refl

-- A new error is an error.
first_error-new :
    (e : StartError) (h : List (Option StartError))
    → (f : StartError) × (first_error (some e ∷ h) ≡ some f)
unfolding first_error
first_error-new e h = elim (Option-cases (first_error h)) [
  | inl nil ↦ (e, rw nil refl)
  | inr (f, found) ↦ (f, rw found refl)
]

-- A step after which the same functions have returned the same results, and `Start` the same.
pub quiet-IsSound :
    (p q : Process)
    → IsSound p
    → q.results ≡ p.results
    → q.err_chan ≡ p.err_chan
    → (q.http ≡ returned → q.http_closed ≡ false → (p.http ≡ returned) × (p.http_closed ≡ false))
    → waiting q.dhcp + (mqtt_waiting q.mqtt + waiting q.http)
      ≡ waiting p.dhcp + (mqtt_waiting p.mqtt + waiting p.http)
    → PhaseSound q.sig_chan q.cancelled q.http_closed q.db_close q.err_chan q.run
    → IsSound q
quiet-IsSound p q sound same kept error as_many phase =
    let as_long : length q.results ≡ length p.results = rw same refl in
    record {
      counted = omega (arith, sound.counted);
      reported = λ a h. rw same (sound.reported a (sym kept ∙ h));
      http_error = λ gone closed.
          let (earlier, still) = error gone closed in rw same (sound.http_error earlier still);
      phase = phase;
    }

-- A goroutine of the group returns: `Start` has not, since not all had.
pub returns-IsSound :
    (p q : Process) (r : Option StartError)
    → IsSound p
    → q.results ≡ r ∷ p.results
    → waiting q.dhcp + (mqtt_waiting q.mqtt + waiting q.http) + 1
      ≡ waiting p.dhcp + (mqtt_waiting p.mqtt + waiting p.http)
    → q.err_chan ≡ p.err_chan
    → (q.http ≡ returned
        → q.http_closed ≡ false
        → (p.http ≡ returned) × (p.http_closed ≡ false) ⊎ (e : StartError) × (r ≡ some e))
    → PhaseSound q.sig_chan q.cancelled q.http_closed q.db_close q.err_chan q.run
    → IsSound q
returns-IsSound p q r sound is fewer kept error phase =
    let longer : length q.results ≡ length p.results + 1 = rw is (omega arith) in
    record {
      counted = omega (arith, sound.counted);
      reported = λ a h.
          let (all, _) = sound.reported a (sym kept ∙ h) in absurd (omega (arith, sound.counted));
      http_error = λ gone closed. elim (error gone closed) [
        | inr (e, new) ↦ rw (is, new) (first_error-new e p.results)
        | inl (earlier, still) ↦
            let (e, found) = sound.http_error earlier still in
            (e, rw is (first_error-later r p.results e found))
      ];
      phase = phase;
    }

pub waiting_one : (s : Service) → s ≢ returned → waiting s ≡ 1
waiting_one starting h = refl
waiting_one serving h = refl
waiting_one returned h = absurd (h refl)

pub waiting_none : (s : Service) → waiting s ≡ 0 → s ≡ returned
waiting_none starting h = absurd (omega arith)
waiting_none serving h = absurd (omega arith)
waiting_none returned h = refl

pub mqtt_waiting_none : (s : MqttService) → mqtt_waiting s ≡ 0 → s ≡ offline
mqtt_waiting_none connecting h = absurd (omega arith)
mqtt_waiting_none confirming h = absurd (omega arith)
mqtt_waiting_none online h = absurd (omega arith)
mqtt_waiting_none offline h = refl
