-- ===== src/System/Install/Tests.antt =====
-- The installation of one machine from its discovery to its first boot from the disk.
use nodefoundry.Base.{
  ◌∷◌, ◌≡◌, refl, subst, none, some, [], ok, codes, text_eq, if◌then◌else◌, lookup, insert, arith,
  pos, GoMap, List, Text, Option, Result, true, err,
}
use nodefoundry.Model.{
  Node, normalize_mac, keep_hex, lower_hex, is_valid_status, can_transition_to, validate,
  state_installed, state_installing,
}
use nodefoundry.Db.Bolt.{save, find_by_mac, update_status}
use nodefoundry.Db.Bolt.Memory.{Memory, memory_repository, two_nodes, mac_a, node_a}
use nodefoundry.Db.Bolt.Samples.{memory_laws, two_nodes-IsWellFormed}
use nodefoundry.Api.{update_node, json, text_body}
use nodefoundry.Api.Boot.{get_boot_script}
use nodefoundry.Mqtt.{on_status_message, with_heartbeat}
use nodefoundry.Mqtt.Status.{reported_node}
use nodefoundry.Ipxe.{Generator, local_boot_script}
use nodefoundry.Agent.{get_mac_address, status_topic, Handler, CommandMessage}
use nodefoundry.Agent
use nodefoundry.Agent.Client.{Report, status_payload}
use nodefoundry.System.Install.{plain_text-IsPlain, message_of, install_completes, IsPlainReport}
use nodefoundry.Agent.Settings.{AgentConfig}
use nodefoundry.Agent.Client.{new_mqtt_client}
use nodefoundry.Agent.{Handler, CommandMessage}
use nodefoundry.Agent.Process.{
  Agent, new_dispatcher, StartupError, start_agent, Event, ticked, signalled, commanded,
}
use nodefoundry.System.Install.{IsPlainReport}
use nodefoundry.System.Install.Samples.{read_report, read_report-ReadsReports}

abbrev generator : Generator
generator = record { server_addr = codes "10.0.0.1:8080"; mirror_url = codes "mirrors.ustc.edu.cn" }

abbrev report : Report
report = record {
  ip = codes "10.0.0.9";
  hostname = codes "rack1";
  uptime = pos 120;
  timestamp = [];
}

abbrev installing_store : Memory
installing_store = (update_node memory_repository 40 mac_a (some (codes "install")) two_nodes).1

abbrev end_store : Memory
end_store =
    on_status_message memory_repository read_report 50 51 (status_topic (codes "aabbccddeeff"))
      (status_payload state_installed report) installing_store

abbrev installing_node : Node
installing_node = record node_a { status = state_installing; updated_at = 40 }

reads_mac : get_mac_address (codes "aabbccddeeff") none ≡ ok (codes "aabbccddeeff")
unfolding get_mac_address text_eq Agent.normalize_mac keep_hex lower_hex
reads_mac = refl

now_installing :
    memory_repository.find_by_mac (codes "aabbccddeeff") installing_store ≡ ok installing_node
unfolding update_node find_by_mac update_status can_transition_to text_eq lookup normalize_mac
    is_valid_status insert
now_installing = refl

saves_report :
    (memory_repository.save 51
      (reported_node 50 (message_of state_installed report) installing_node)
      installing_store).0
    ≡ none
unfolding save validate update_node find_by_mac update_status can_transition_to text_eq lookup
    normalize_mac is_valid_status insert with_heartbeat
saves_report = refl

install_completes_example :
    (old n : Node) × (memory_repository.find_by_mac (codes "aabbccddeeff") two_nodes ≡ ok old)
    × (memory_repository.find_by_mac (codes "aabbccddeeff") end_store ≡ ok n)
    × (n.status ≡ state_installed)
    × (n.last_heartbeat ≡ 50)
    × (n.ip ≡ (if text_eq (codes "10.0.0.9") [] then old.ip else codes "10.0.0.9"))
    × (n.hostname ≡ (if text_eq (codes "rack1") [] then old.hostname else codes "rack1"))
    × (n.created_at ≡ old.created_at)
    × (get_boot_script memory_repository generator (codes "aabbccddeeff") end_store
        ≡ json 200 (text_body local_boot_script))
install_completes_example =
    install_completes memory_repository generator memory_laws read_report read_report-ReadsReports
      40 50 51 mac_a (codes "aabbccddeeff") (codes "aabbccddeeff") none (some (codes "install"))
      report two_nodes two_nodes-IsWellFormed reads_mac
      (unfold normalize_mac keep_hex lower_hex in refl)
      (unfold update_node find_by_mac update_status can_transition_to text_eq lookup normalize_mac
          is_valid_status in
        refl)
      (plain_text-IsPlain (codes "10.0.0.9") refl, plain_text-IsPlain (codes "rack1") refl, tt)
      (λ n found.
        subst
          (λ (x : Node).
            (memory_repository.save 51 (reported_node 50 (message_of state_installed report) x)
              installing_store).0
            ≡ none)
          (ground (arith, found, now_installing)) saves_report)

abbrev agent_config : AgentConfig
agent_config = record {
  mqtt_broker = codes "localhost:1883";
  log_level = codes "info";
  mac = codes "AA:BB:CC:DD:EE:FF";
  heartbeat_interval = pos 30;
}

abbrev Reboot : Type 0
Reboot = GoMap (Handler Text Text)

abbrev dispatcher : Reboot
dispatcher = new_dispatcher none

abbrev started_or : Agent Text → Result StartupError (Agent Text) → Agent Text
started_or d (ok a) = a
started_or d (err e) = d

abbrev nobody : Agent Text
nobody = record { client = new_mqtt_client [] []; published = []; answers = []; returned = true }

abbrev agent : Agent Text
agent = started_or nobody (start_agent true agent_config none true true report)

abbrev reboot_message : Text → Option (CommandMessage Text)
reboot_message t = some (record { command = t; args = [] })

abbrev events : List (Event Text)
events = ticked report ∷ commanded (codes "reboot") ∷ signalled ∷ ticked report ∷ []
