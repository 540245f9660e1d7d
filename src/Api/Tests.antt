-- ===== src/Api/Tests.antt =====
-- The handlers at concrete values.
use nodefoundry.Base.{some, none, [], ◌∷◌, codes, ◌≡◌, refl, text_eq, ok, lookup, true, arith}
use nodefoundry.Model.{
  Node, is_valid_status, can_transition_to, validate, normalize_mac, is_valid_mac, new_node,
  state_discovered, state_installing,
}
use nodefoundry.Db.Bolt.{save, find_by_mac, list, update_status, init_bucket}
use nodefoundry.Db.Bolt.Memory.{
  two_nodes, empty_store, memory_bucket, plain_codec, memory_repository, node_a, node_b, mac_a,
  mac_b,
}
use nodefoundry.Db.Bolt.Samples.{memory_laws}
use nodefoundry.Dhcp.Server.Samples.{ticks}
use nodefoundry.Api.{
  RegisterNodeRequest, register_node, update_node, list_nodes, get_node, cannot_install, one_node,
  many_nodes, json, error_response, found_node,
}
use nodefoundry.Api.Nodes.{register_node-created, register_node-refused, update_node-installed}

abbrev new_request : RegisterNodeRequest
new_request = record { mac = codes "02:00:00:00:00:0A"; ip = codes "10.0.0.9" }

abbrev known_request : RegisterNodeRequest
known_request = record { mac = codes "AA:BB:CC:DD:EE:FF"; ip = [] }

register_node-created_example :
    (n : Node) × ((register_node memory_repository ticks (some new_request) two_nodes).0.body
      ≡ one_node (some n))
    × (memory_repository.find_by_mac
          (codes "02-00-00-00-00-0a")
          (register_node memory_repository ticks (some new_request) two_nodes).1
        ≡ ok n)
    × (n.mac ≡ normalize_mac new_request.mac)
    × (n.status ≡ state_discovered)
    × (is_valid_mac new_request.mac ≡ true)
    × (found_node (memory_repository.find_by_mac (codes "02-00-00-00-00-0a") two_nodes) ≡ none)
    × (get_node memory_repository
          (codes "02-00-00-00-00-0a")
          (register_node memory_repository ticks (some new_request) two_nodes).1
        ≡ json 200 (one_node (some n)))
register_node-created_example =
    register_node-created memory_repository memory_laws ticks new_request
      (codes "02-00-00-00-00-0a") two_nodes
      (unfold register_node find_by_mac save validate new_node is_valid_mac text_eq lookup
          normalize_mac in
        refl)
      (unfold normalize_mac in refl)

register_node-refused_example :
    (register_node memory_repository ticks (some known_request) two_nodes).1 ≡ two_nodes
register_node-refused_example =
    register_node-refused memory_repository memory_laws ticks (some known_request) two_nodes (
      unfold register_node find_by_mac save validate new_node is_valid_mac text_eq lookup
        normalize_mac in
      λ h. absurd (ground arith))

update_node-installed_example :
    (old : Node) × (memory_repository.find_by_mac (codes "AA:BB:CC:DD:EE:FF") two_nodes ≡ ok old)
    × (old.status ≡ state_discovered)
    × (some (codes "install") ≡ some (codes "install"))
    × (memory_repository.find_by_mac
          (codes "AA:BB:CC:DD:EE:FF")
          (update_node memory_repository 40 mac_a (some (codes "install")) two_nodes).1
        ≡ ok (record old { status = state_installing; updated_at = 40 }))
    × ((update_node memory_repository 40 mac_a (some (codes "install")) two_nodes).0.body
        ≡ one_node (some (record old { status = state_installing; updated_at = 40 })))
update_node-installed_example =
    update_node-installed memory_repository memory_laws 40 mac_a (codes "AA:BB:CC:DD:EE:FF")
      (some (codes "install")) two_nodes
      (unfold update_node find_by_mac update_status can_transition_to text_eq lookup normalize_mac
          is_valid_status in
        refl)
      (unfold normalize_mac in refl)

listed_all : list_nodes memory_repository two_nodes ≡ json 200 (many_nodes (node_b ∷ node_a ∷ []))
unfolding list_nodes list
listed_all = refl

got :
    get_node memory_repository (codes "11:22:33:44:55:66") two_nodes
    ≡ json 200 (one_node (some node_b))
unfolding get_node find_by_mac normalize_mac text_eq lookup
got = refl

refused :
    (update_node memory_repository 40 mac_b (some (codes "install")) two_nodes).0
    ≡ error_response 400 (
        codes
          "cannot install node with status 'installing', only 'discovered' nodes can be installed")
unfolding update_node cannot_install find_by_mac normalize_mac text_eq lookup
refused = refl

opened : init_bucket memory_bucket plain_codec none ≡ (none, empty_store)
unfolding init_bucket
opened = refl
