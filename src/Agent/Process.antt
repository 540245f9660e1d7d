-- ===== src/Agent/Process.antt =====
-- cmd/nodefoundry-agent/main.go and internal/agent/command/reboot.go: the process of the agent. Each
-- turn of its main loop is an event; what the system and the broker answer is in the events.
pub mod Startup
mod Tests
use nodefoundry.Base.{
  Bool, true, false, Option, none, some, List, [], ◌∷◌, if◌then◌else◌, Result, ok, err, Text, codes,
  GoMap, ℤ, below,
}
use nodefoundry.Agent.{
  AddressError, Interface, Handler, CommandMessage, DispatchError, register, get_mac_address,
}
use nodefoundry.Agent.Settings.{AgentConfig, load_config, get_heartbeat_interval}
use nodefoundry.Agent.Client.{
  MqttClient, ConnectError, Publication, Report, new_mqtt_client, connect, disconnect,
  publish_status, on_command_message,
}

-- `NewRebootCommand`: what starting `systemctl reboot` returns is an argument.
unfoldable pub reboot_command : {Args Error : Type 0} → Option Error → Handler Args Error
reboot_command started = record { name = codes "reboot"; execute = λ args. started }

-- The dispatcher of `main`
unfoldable pub new_dispatcher : {Args Error : Type 0} → Option Error → GoMap (Handler Args Error)
unfolding reboot_command register
new_dispatcher started = register (reboot_command started) []

-- A turn of the main loop, or a message that arrives beside it.
pub data Event (Payload : Type 0) : Type 0 where
  ticked : Report → Event Payload
  signalled : Event Payload
  commanded : Payload → Event Payload

-- The agent in its main loop: its client, what it published and what its dispatcher answered, the
-- last first, and whether it returned.
pub record Agent (Error : Type 0) : Type 0 where
  pub client : MqttClient
  pub published : List Publication
  pub answers : List (Option (DispatchError Error))
  pub returned : Bool

-- Why `main` ends before its loop: it panics when `initLogger` fails, exits with status 1 without an
-- address or a broker, and panics in `time.NewTicker`, having published this.
pub data StartupError : Type 0 where
  no_logger : StartupError
  no_address : AddressError → StartupError
  no_broker : ConnectError → StartupError
  ticker_panics : List Publication → StartupError

-- `publishStatus`; an error of the broker is only logged.
unfoldable pub publish : {Error : Type 0} → Report → Agent Error → Agent Error
unfolding publish_status
publish r a = record a { published = publish_status (codes "installed") r a.client ∷ a.published }

-- `time.NewTicker` panics on an interval that is not positive; the agent before its loop.
unfoldable pub start_ticker :
    {Error : Type 0} → AgentConfig → Agent Error → Result StartupError (Agent Error)
unfolding get_heartbeat_interval
start_ticker config a =
    if below (get_heartbeat_interval config) 1 then err (ticker_panics a.published) else ok a

-- The start of `main`, of whether the logging library builds the logger, what the interfaces are, whether the broker accepts the connection and the
-- subscription, and what the machine reports first.
unfoldable pub start_agent :
    {Error : Type 0}
    → Bool
    → AgentConfig
    → Option (List Interface)
    → Bool
    → Bool
    → Report
    → Result StartupError (Agent Error)
unfolding get_mac_address connect new_mqtt_client publish start_ticker
start_agent false config interfaces accepts subscribes r = err no_logger
start_agent true config interfaces accepts subscribes r =
    elim (get_mac_address config.mac interfaces) [
      | err e ↦ err (no_address e)
      | ok mac ↦
          let connected = connect accepts subscribes (new_mqtt_client config.mqtt_broker mac) in
          elim (connected.0) [
            | some e ↦ err (no_broker e)
            | none ↦ start_ticker config (
                publish r
                  (record { client = connected.1; published = []; answers = []; returned = false }))
          ]
    ]

module _ {Args Error Payload : Type 0} (unmarshal : Payload → Option (CommandMessage Args))
    (handlers : GoMap (Handler Args Error)) where
  -- One event; after a signal `main` returns, and the deferred calls disconnect the client.
  unfoldable pub handle_event : Event Payload → Agent Error → Agent Error
  unfolding publish on_command_message disconnect
  handle_event (ticked r) a = if a.returned then a else publish r a
  handle_event signalled a =
      if a.returned then a else record a { client = disconnect a.client; returned = true }
  handle_event (commanded payload) a =
      if a.returned
      then a
      else record a { answers = on_command_message unmarshal handlers payload ∷ a.answers }

  -- The loop, over the events in order.
  unfoldable pub run_agent : List (Event Payload) → Agent Error → Agent Error
  unfolding handle_event
  run_agent [] a = a
  run_agent (e ∷ rest) a = run_agent rest (handle_event e a)
