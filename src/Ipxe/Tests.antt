-- ===== src/Ipxe/Tests.antt =====
-- Scripts at concrete values.
use Prim.{tt}
use nodefoundry.Base.{◌≡◌, refl, ok, some, ◌∷◌, ◌++◌, codes, text_eq, lookup}
use nodefoundry.Model.{Node, normalize_mac, can_transition_to, is_valid_status}
use nodefoundry.Db.Bolt.{find_by_mac, update_status}
use nodefoundry.Db.Bolt.Memory.{two_nodes, memory_repository, node_a, node_b, mac_a}
use nodefoundry.Db.Bolt.Samples.{memory_laws}
use nodefoundry.Api.{update_node, error_response}
use nodefoundry.Api.Boot.{get_boot_script, get_preseed}
use nodefoundry.Ipxe.{
  Generator, no_query, wait_loop_script, install_script, net_params, generate_by_status,
  generate_with_query, get_server_ip, get_hostname,
}
use nodefoundry.Ipxe.Scripts.{get_server_ip_lem, generate_by_status-installed}

abbrev generator : Generator
generator = record { server_addr = codes "10.0.0.1:8080"; mirror_url = codes "mirror" }

host_only :
    (get_server_ip (codes "10.0.0.1" ++ b':' ∷ codes "8080") ≡ codes "10.0.0.1")
    × (get_server_ip (codes "10.0.0.1") ≡ codes "10.0.0.1")
host_only =
    get_server_ip_lem (codes "10.0.0.1") (codes "8080")
      (refl, (refl, (refl, (refl, (refl, (refl, (refl, (refl, tt))))))))

generate_by_status-installed_example :
    (node : Node) × (memory_repository.find_by_mac (codes "AA:BB:CC:DD:EE:FF") two_nodes ≡ ok node)
    × (generate_by_status memory_repository generator (codes "AA:BB:CC:DD:EE:FF") two_nodes
        ≡ ok (wait_loop_script generator (normalize_mac (codes "AA:BB:CC:DD:EE:FF"))))
    × (generate_by_status memory_repository generator
          (codes "AA:BB:CC:DD:EE:FF")
          (update_node memory_repository 40 mac_a (some (codes "install")) two_nodes).1
        ≡ ok (
            install_script generator (normalize_mac (codes "AA:BB:CC:DD:EE:FF")) (net_params node)))
generate_by_status-installed_example =
    generate_by_status-installed memory_repository generator memory_laws 40 mac_a
      (codes "AA:BB:CC:DD:EE:FF") (some (codes "install")) two_nodes
      (unfold update_node find_by_mac update_status can_transition_to text_eq lookup normalize_mac
          is_valid_status in
        refl)
      (unfold normalize_mac in refl)

parameters :
    net_params (record node_a { ip = codes "10.0.0.9"; dns = codes "10.0.0.2" })
    ≡ codes "?ip=10.0.0.9&dns=10.0.0.2"
unfolding net_params text_eq
parameters = refl

unknown_machine :
    get_boot_script memory_repository generator (codes "02") two_nodes
    ≡ error_response 404 (codes "node not found")
unfolding get_boot_script generate_by_status find_by_mac normalize_mac text_eq lookup
unknown_machine = refl

unknown_preseed :
    get_preseed memory_repository generator (codes "02") no_query two_nodes
    ≡ error_response 404 (codes "node not found")
unfolding get_preseed generate_with_query find_by_mac normalize_mac text_eq lookup
unknown_preseed = refl

named : get_hostname node_b ≡ codes "node-112233445566"
unfolding get_hostname text_eq
named = refl
