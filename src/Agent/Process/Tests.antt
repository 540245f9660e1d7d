-- ===== src/Agent/Process/Tests.antt =====
-- Runs of the agent at concrete values.
use nodefoundry.Base.{
  if◌then◌else◌, ℕ, ◌*◌, ◌≤◌, ◌<◌, ◌≡◌, refl, ◌⊎◌, ℤ, pos, Option, none, some, List, [], ◌∷◌,
  Result, ok, err, Text, codes, text_eq, true, GoMap, arith, false, ap, ◌∙◌,
}
use nodefoundry.Model
use nodefoundry.Dhcp.Ip.{Ip}
use nodefoundry.Agent.{Handler, get_mac_address, normalize_mac}
use nodefoundry.Agent.Settings.{
  AgentConfig, load_config, get_heartbeat_interval, load_config_heartbeat, get_env,
}
use nodefoundry.Agent.Machine.{FirstUsable, get_ip, get_ip_lem}
use nodefoundry.Agent.Client.{Report, connect, new_mqtt_client, publish_status, failed_to_connect}
use nodefoundry.Agent.Process.{
  Agent, StartupError, start_agent, new_dispatcher, ticker_panics, no_broker,
}
use nodefoundry.Agent.Process.Startup.{start_agent_panics}

abbrev unset : Text → Text
unset key = []

abbrev no_int : Text → Option ℤ
no_int t = none

load_config_heartbeat_example :
    (m : ℕ) × (10 ≤ m)
    × ((load_config unset no_int).heartbeat_interval ≡ pos m)
    × ((get_heartbeat_interval (load_config unset no_int) ≡ pos (m * 1000000000))
        ⊎ (9223372036 < m))
load_config_heartbeat_example = load_config_heartbeat unset no_int

abbrev addresses : List (Option Ip)
addresses = some (127 ∷ 0 ∷ 0 ∷ 1 ∷ []) ∷ none ∷ some (10 ∷ 0 ∷ 0 ∷ 9 ∷ []) ∷ []

get_ip_lem_example : FirstUsable addresses (get_ip (some addresses))
get_ip_lem_example = get_ip_lem addresses

abbrev small_config : AgentConfig
small_config = record {
  mqtt_broker = codes "localhost:1883";
  log_level = codes "info";
  mac = codes "AA:BB:CC:DD:EE:FF";
  heartbeat_interval = pos 30;
}

abbrev report : Report
report = record {
  ip = codes "10.0.0.9";
  hostname = codes "rack1";
  uptime = pos 120;
  timestamp = codes "2026-01-22T10:00:00Z";
}

abbrev Reboot : Type 0
Reboot = GoMap (Handler Text Text)

abbrev dispatcher : Reboot
dispatcher = new_dispatcher none

abbrev started_or : Agent Text → Result StartupError (Agent Text) → Agent Text
started_or d (ok a) = a
started_or d (err e) = d

abbrev nobody : Agent Text
nobody = record { client = new_mqtt_client [] []; published = []; answers = []; returned = true }

no_broker_found :
    start_agent {Error = Text} true small_config none false true report
    ≡ err (no_broker failed_to_connect)
unfolding start_agent get_mac_address connect text_eq normalize_mac Model.keep_hex Model.lower_hex
no_broker_found = refl

abbrev three_centuries : Text → Text
three_centuries key =
    if text_eq key (codes "NF_HEARTBEAT_INTERVAL")
    then codes "9500000000"
    else if text_eq key (codes "NF_MAC")
    then codes "AA:BB:CC:DD:EE:FF"
    else []

abbrev many_seconds : Text → Option ℤ
many_seconds t = some (pos 9500000000)

abbrev long_config : AgentConfig
long_config = load_config three_centuries many_seconds

long_mac : long_config.mac ≡ codes "AA:BB:CC:DD:EE:FF"
unfolding load_config get_env text_eq
long_mac = refl

own_mac : get_mac_address (codes "AA:BB:CC:DD:EE:FF") none ≡ ok (codes "aabbccddeeff")
unfolding get_mac_address text_eq normalize_mac Model.keep_hex Model.lower_hex
own_mac = refl

start_agent_panics_example :
    start_agent {Error = Text} true long_config none true true report
    ≡ err (
        ticker_panics (
          publish_status
            (codes "installed")
            report
            (connect true true (new_mqtt_client long_config.mqtt_broker (codes "aabbccddeeff"))).1
          ∷ []))
start_agent_panics_example =
    start_agent_panics three_centuries many_seconds 9500000000 none (codes "aabbccddeeff") report
      (unfold text_eq in refl) refl (omega arith) (omega arith)
      (ap (λ t. get_mac_address t none) long_mac ∙ own_mac)
