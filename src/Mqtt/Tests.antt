-- ===== src/Mqtt/Tests.antt =====
-- Status messages at concrete values.
use nodefoundry.Base.{some, [], codes, ◌≡◌, refl, text_eq, if◌then◌else◌, ok, lookup}
use nodefoundry.Model.{Node, is_valid_status, can_transition_to, validate, normalize_mac}
use nodefoundry.Db.Bolt.{save, find_by_mac}
use nodefoundry.Db.Bolt.Memory.{two_nodes, memory_repository, node_b, mac_b}
use nodefoundry.Db.Bolt.Samples.{memory_laws, two_nodes-IsWellFormed}
use nodefoundry.Mqtt.{StatusMessage, handle_status, topic_mac, with_heartbeat}
use nodefoundry.Mqtt.Status.{handle_status-find, settled_status}

abbrev finished : StatusMessage
finished = record { status = codes "installed"; ip = []; hostname = codes "rack1" }

handle_status-find_example :
    (n : Node) × (memory_repository.find_by_mac
        (codes "11:22:33:44:55:66")
        (handle_status memory_repository 30 31 mac_b finished two_nodes)
      ≡ ok n)
    × (n.status ≡ settled_status node_b (codes "installed"))
    × (n.last_heartbeat ≡ 30)
    × (n.ip ≡ (if text_eq finished.ip [] then node_b.ip else finished.ip))
    × (n.hostname ≡ (if text_eq finished.hostname [] then node_b.hostname else finished.hostname))
    × (n.created_at ≡ node_b.created_at)
handle_status-find_example =
    handle_status-find memory_repository memory_laws 30 31 mac_b (codes "11:22:33:44:55:66")
      finished node_b two_nodes two_nodes-IsWellFormed (unfold is_valid_status text_eq in refl)
      (unfold find_by_mac text_eq lookup normalize_mac in refl)
      (unfold save validate text_eq lookup normalize_mac can_transition_to with_heartbeat in refl)
      (unfold normalize_mac in refl)

heard : topic_mac (codes "node/11-22-33-44-55-66/status") ≡ some mac_b
unfolding topic_mac text_eq normalize_mac
heard = refl
