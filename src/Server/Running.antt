-- ===== src/Server/Running.antt =====
-- internal/server/server.go: `Start`, `Shutdown` and `Run`, with the `Start` of the DHCP server
-- (internal/dhcp/server.go) and of the MQTT client (internal/mqtt/client.go), as the steps of the
-- goroutines that they start. golang.org/x/sync/errgroup is a parameter. A step with a condition is
-- taken only when it holds, and a goroutine that waits has no step until then.
pub mod Invariant
pub mod Preservation
pub mod Outcomes
pub mod Shutdown
pub mod Samples
mod Tests
use nodefoundry.Base.{
  ℕ, ◌<◌, ◌≡◌, ◌≢◌, length, Bool, true, false, ◌||◌, Option, none, some, List, [], ◌∷◌,
  if◌then◌else◌,
}

-- What a goroutine of `Start` fails with, or `ListenAndServe`.
pub data StartError : Type 0 where
  dhcp_address_failed dhcp_listen_failed : StartError
  mqtt_connect_failed mqtt_timeout : StartError
  http_failed : StartError

-- What the code uses of a group that `errgroup.WithContext` returns, of the results that its functions
-- returned so far, the last first: what `Wait` returns for a number of functions, `none` while it
-- blocks, and whether the group's context is cancelled by an error.
pub record Group : Type 0 where
  pub wait : ℕ → List (Option StartError) → Option (Option StartError)
  pub is_cancelled : List (Option StartError) → Bool

-- Where a goroutine is: before it listens, while it does, and when it returned.
pub data Service : Type 0 where
  starting serving returned : Service

-- Where the goroutine of the MQTT client is: in `Connect`, waiting for `connectChan`, waiting for the
-- end of the context, and when it returned.
pub data MqttService : Type 0 where
  connecting confirming online offline : MqttService

-- Where `Run` is: at its `select`, at `httpServer.Shutdown`, waiting in it, at `db.Close`, and at its
-- end, with what it returns.
pub data RunPhase : Type 0 where
  selecting shutting_down draining closing_db : RunPhase
  ended : Option StartError → RunPhase

pub record Process : Type 0 where
  pub dhcp : Service
  pub mqtt : MqttService
  pub http : Service
  -- the channel `connectChan` of the MQTT client, which holds one value at most
  pub connect_chan : Bool
  pub results : List (Option StartError)
  -- the channel `errChan`, which holds what `Start` returned
  pub err_chan : Option (Option StartError)
  -- the channel `sigChan`
  pub sig_chan : Bool
  -- whether `cancel()` was called
  pub cancelled : Bool
  -- whether `httpServer.Shutdown` was called
  pub http_closed : Bool
  -- whether `db.Close` succeeded, once it was called
  pub db_close : Option Bool
  pub run : RunPhase

-- The error that was returned first, of results with the last first.
unfoldable pub first_error : List (Option StartError) → Option StartError
first_error [] = none
first_error (r ∷ rest) =
    let earlier = first_error rest in elim earlier [ some e ↦ some e | none ↦ r ]

-- What errgroup documents: `Wait` blocks until every function has returned, and then returns the
-- first error; the first error cancels the context.
pub record IsGroup (group : Group) : Type 0 where
  pub wait_blocks : (n : ℕ) (h : List (Option StartError)) → length h < n → group.wait n h ≡ none
  pub wait_returns :
      (n : ℕ) (h : List (Option StartError)) → length h ≡ n → group.wait n h ≡ some (first_error h)
  pub cancels :
      (h : List (Option StartError)) (e : StartError)
      → first_error h ≡ some e
      → group.is_cancelled h ≡ true

-- `Run` after it started the goroutine of `Start`.
abbrev pub first_process : Process
first_process = record {
  dhcp = starting;
  mqtt = connecting;
  http = starting;
  connect_chan = false;
  results = [];
  err_chan = none;
  sig_chan = false;
  cancelled = false;
  http_closed = false;
  db_close = none;
  run = selecting;
}

-- `onConnect`, of whether the subscription succeeded: it sends, unless the channel is full.
unfoldable pub on_connect : Bool → Process → Process
on_connect subscribed p = if subscribed then record p { connect_chan = true } else p

module _ (group : Group) where
  -- `<-ctx.Done()` of the group's context
  unfoldable pub is_done : Process → Bool
  is_done p = p.cancelled || group.is_cancelled p.results

  -- `Start` of the DHCP server: it resolves its address and listens, or fails, and waits for the context.
  pub data DhcpStep (p : Process) : Process → Type 0 where
    dhcp_serves : p.dhcp ≡ starting → DhcpStep p (record p { dhcp = serving })
    dhcp_fails :
        (resolved : Bool)
        → p.dhcp ≡ starting
        → DhcpStep p (record p {
          dhcp = returned;
          results = some (if resolved then dhcp_listen_failed else dhcp_address_failed) ∷ p.results;
        })
    dhcp_stops :
        p.dhcp ≡ serving
        → is_done p ≡ true
        → DhcpStep p (record p { dhcp = returned; results = none ∷ p.results })

  -- `Start` of the MQTT client: it connects, waits for `connectChan` or 30 seconds, and waits for the
  -- context.
  pub data MqttStep (p : Process) : Process → Type 0 where
    mqtt_connects : p.mqtt ≡ connecting → MqttStep p (record p { mqtt = confirming })
    -- the library calls it after it connected, and again after each reconnection
    mqtt_calls_back : (subscribed : Bool) → MqttStep p (on_connect subscribed p)
    mqtt_serves :
        p.mqtt ≡ confirming
        → p.connect_chan ≡ true
        → MqttStep p (record p { mqtt = online; connect_chan = false })
    mqtt_fails :
        p.mqtt ≡ connecting
        → MqttStep p (record p { mqtt = offline; results = some mqtt_connect_failed ∷ p.results })
    mqtt_times_out :
        p.mqtt ≡ confirming
        → MqttStep p (record p { mqtt = offline; results = some mqtt_timeout ∷ p.results })
    mqtt_stops :
        p.mqtt ≡ online
        → is_done p ≡ true
        → MqttStep p (record p { mqtt = offline; results = none ∷ p.results })

  -- The goroutine of the HTTP server.
  pub data HttpStep (p : Process) : Process → Type 0 where
    http_serves :
        p.http ≡ starting → p.http_closed ≡ false → HttpStep p (record p { http = serving })
    -- the port is taken, or the listener fails while it serves
    http_fails :
        p.http_closed ≡ false
        → p.http ≢ returned
        → HttpStep p (record p { http = returned; results = some http_failed ∷ p.results })
    -- `ListenAndServe` returns `ErrServerClosed`
    http_stops :
        p.http_closed ≡ true
        → p.http ≢ returned
        → HttpStep p (record p { http = returned; results = none ∷ p.results })

  -- `Start` after it started the three, `Run`, and `Shutdown`, with the signals that arrive.
  pub data RunStep (p : Process) : Process → Type 0 where
    start_returns :
        (r : Option StartError)
        → group.wait 3 p.results ≡ some r
        → p.err_chan ≡ none
        → RunStep p (record p { err_chan = some r })
    signal : RunStep p (record p { sig_chan = true })
    run_stops :
        p.run ≡ selecting
        → p.sig_chan ≡ true
        → RunStep p (record p { run = shutting_down; cancelled = true })
    run_fails :
        (r : Option StartError)
        → p.run ≡ selecting
        → p.err_chan ≡ some r
        → RunStep p (record p { run = ended r; cancelled = true })
    http_shuts_down :
        p.run ≡ shutting_down → RunStep p (record p { run = draining; http_closed = true })
    -- no connection is left, or 30 seconds are over
    http_drained : p.run ≡ draining → RunStep p (record p { run = closing_db })
    -- the error of `db.Close` is only logged
    db_closes :
        (closes : Bool)
        → p.run ≡ closing_db
        → RunStep p (record p { run = ended none; db_close = some closes })

  -- A step of one of the goroutines.
  pub data ProcessStep (p : Process) : Process → Type 0 where
    by_dhcp : {q : Process} → DhcpStep p q → ProcessStep p q
    by_mqtt : {q : Process} → MqttStep p q → ProcessStep p q
    by_http : {q : Process} → HttpStep p q → ProcessStep p q
    by_run : {q : Process} → RunStep p q → ProcessStep p q

  -- `ProcessReach q p`: steps lead from `p` to `q`.
  pub data ProcessReach (p : Process) : Process → Type 0 where
    begins : ProcessReach p p
    continues : {q q' : Process} → ProcessReach p q → ProcessStep q q' → ProcessReach p q'
