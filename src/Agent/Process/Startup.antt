-- ===== src/Agent/Process/Startup.antt =====
-- How the agent gets to its loop, and how it does not.
use nodefoundry.Base.{
  ℕ, ◌≡◌, refl, ◌≤◌, ◌<◌, Bool, true, false, Result-cases, Option-cases, inl, inr, ℤ, pos, below,
  Option, none, some, List, [], ◌∷◌, ok, err, Text, codes, text_eq, arith, negsuc,
}
use nodefoundry.Agent.{Interface, get_mac_address}
use nodefoundry.Agent.Settings.{
  AgentConfig, load_config, get_heartbeat_interval, long_interval-negative, interval_read,
}
use nodefoundry.Agent.Client.{
  Report, MqttClient, new_mqtt_client, connect, on_connect, publish_status,
}
use nodefoundry.Agent.Process.{Agent, publish, start_ticker, start_agent, ticker_panics}

-- The agent before its loop, of a client that is connected.
abbrev pub first_agent : {Error : Type 0} → MqttClient → Report → Agent Error
unfolding publish
first_agent c r = publish r (record { client = c; published = []; answers = []; returned = false })

connect-kept :
    (accepts subscribes : Bool) (c : MqttClient)
    → (connect accepts subscribes c).0 ≡ none
    → (connect accepts subscribes c).1.mac ≡ c.mac
unfolding connect on_connect
connect-kept false subscribes c h = absurd (ground arith)
connect-kept true true c h = refl
connect-kept true false c h = ground arith

start_ticker-ok :
    {Error : Type 0} (config : AgentConfig) (a a' : Agent Error)
    → start_ticker config a ≡ ok a'
    → (a' ≡ a) × (below (get_heartbeat_interval config) 1 ≡ false)
unfolding start_ticker
start_ticker-ok config a a' h = (ground arith, ground arith)

-- An agent that gets to its loop has found its address, has a positive interval, and has published
-- its first report.
pub start_agent-ok :
    {Error : Type 0} (builds : Bool) (config : AgentConfig) (interfaces : Option (List Interface))
    (accepts subscribes : Bool) (r : Report) (a : Agent Error)
    → start_agent builds config interfaces accepts subscribes r ≡ ok a
    → (mac : Text) × (get_mac_address config.mac interfaces ≡ ok mac)
      × (below (get_heartbeat_interval config) 1 ≡ false)
      × (a.client.mac ≡ mac)
      × (a.returned ≡ false)
      × (a.published ≡ publish_status (codes "installed") r a.client ∷ [])
unfolding start_agent new_mqtt_client publish
start_agent-ok false config interfaces accepts subscribes r a h = absurd (ground arith)
start_agent-ok {Error} true config interfaces accepts subscribes r a h =
    elim (Result-cases (get_mac_address config.mac interfaces)) [
      | inr (e, failed) ↦ absurd (ground arith)
      | inl (mac, found) ↦
          let c : MqttClient = new_mqtt_client config.mqtt_broker mac in
          elim (Option-cases (connect accepts subscribes c).0) [
            | inr (e, failed) ↦ absurd (ground arith)
            | inl done ↦
                let first : Agent Error = first_agent (connect accepts subscribes c).1 r in
                let (is, positive) = start_ticker-ok config first a (ground arith) in
                (
                  mac,
                  found,
                  positive,
                  rw is (connect-kept accepts subscribes c done),
                  rw is refl,
                  rw is refl,
                )
          ]
    ]

start_agent-stopped :
    {Error : Type 0} (config : AgentConfig) (interfaces : Option (List Interface)) (mac : Text)
    (r : Report) (n : ℕ)
    → get_mac_address config.mac interfaces ≡ ok mac
    → get_heartbeat_interval config ≡ negsuc n
    → start_agent {Error = Error} true config interfaces true true r
      ≡ err (
          ticker_panics (
            publish_status
              (codes "installed")
              r
              (connect true true (new_mqtt_client config.mqtt_broker mac)).1
            ∷ []))
unfolding start_agent publish connect on_connect new_mqtt_client
start_agent-stopped config interfaces mac r n found is =
    rw (found, start_agent) (rw (is, start_ticker) refl)

-- An interval that `LoadConfig` reads and that is above 9223372036 seconds, up to 18446744073, ends
-- the agent: on a machine with an address and a broker that accepts it, it publishes its first report
-- and panics in `time.NewTicker`.
pub start_agent_panics :
    {Error : Type 0} (getenv : Text → Text) (atoi : Text → Option ℤ) (m : ℕ)
    (interfaces : Option (List Interface)) (mac : Text) (r : Report)
    → text_eq (getenv (codes "NF_HEARTBEAT_INTERVAL")) [] ≡ false
    → atoi (getenv (codes "NF_HEARTBEAT_INTERVAL")) ≡ some (pos m)
    → 9223372036 < m
    → m ≤ 18446744073
    → get_mac_address (load_config getenv atoi).mac interfaces ≡ ok mac
    → let c = (connect true true (new_mqtt_client (load_config getenv atoi).mqtt_broker mac)).1 in
      start_agent {Error = Error} true (load_config getenv atoi) interfaces true true r
      ≡ err (ticker_panics (publish_status (codes "installed") r c ∷ []))
start_agent_panics {Error} getenv atoi m interfaces mac r set reads large fits found =
    let config = load_config getenv atoi in
    let read = interval_read getenv atoi m set reads (omega arith) in
    let (n, is) = long_interval-negative config m read large fits in
    start_agent-stopped config interfaces mac r n found is
