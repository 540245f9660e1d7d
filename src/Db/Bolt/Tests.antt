-- ===== src/Db/Bolt/Tests.antt =====
-- The repository at a small store in memory.
use mathlib.Core.List.{Mem, Perm}
use nodefoundry.Base.{◌≡◌, refl, ◌↔◌, List, [], ◌∷◌, text_eq, codes, ok, lookup, insert}
use nodefoundry.Model.{Node, normalize_mac, validate, state_installing}
use nodefoundry.Db.{IsRepository}
use nodefoundry.Db.Bolt.{save, find_by_mac, list, list_by_status, sort_nodes}
use nodefoundry.Db.Bolt.Memory.{
  memory_bucket, memory_bucket-IsBucket, plain_codec, plain_codec-RoundTrips, memory_repository,
  mac_a, node_a, node_b, two_nodes,
}
use nodefoundry.Db.Bolt.Laws.{bolt-IsRepository}
use nodefoundry.Db.Bolt.Listing.{mem-list, list_by_status-list}
use nodefoundry.Db.Bolt.Sorting.{IsNewestFirst, sort_nodes_lem}

bolt-IsRepository_example : IsRepository memory_repository
bolt-IsRepository_example =
    bolt-IsRepository memory_bucket plain_codec memory_bucket-IsBucket plain_codec-RoundTrips

sort_nodes_lem_example :
    IsNewestFirst (sort_nodes (node_a ∷ node_b ∷ node_a ∷ []))
    × Perm (sort_nodes (node_a ∷ node_b ∷ node_a ∷ [])) (node_a ∷ node_b ∷ node_a ∷ [])
sort_nodes_lem_example = sort_nodes_lem (node_a ∷ node_b ∷ node_a ∷ [])

abbrev again : Node
again = record node_a { mac = codes "AA:BB:CC:DD:EE:FF"; status = state_installing; created_at = 0 }

find-save_run :
    find_by_mac memory_bucket plain_codec mac_a (save memory_bucket plain_codec 9 again two_nodes).2
    ≡ ok (record node_a { status = state_installing; updated_at = 9 })
unfolding find_by_mac save validate text_eq lookup insert normalize_mac
find-save_run = refl

listed : list memory_bucket plain_codec two_nodes ≡ ok (node_b ∷ node_a ∷ [])
unfolding list
listed = refl

mem-list_example : IsNewestFirst (node_b ∷ node_a ∷ []) × Mem node_a (node_b ∷ node_a ∷ [])
mem-list_example =
    mem-list memory_bucket plain_codec memory_bucket-IsBucket two_nodes (node_b ∷ node_a ∷ []) mac_a
      node_a listed (unfold find_by_mac text_eq lookup normalize_mac in refl)

list_by_status-list_example :
    (ns : List Node) × (list_by_status memory_bucket plain_codec state_installing two_nodes ≡ ok ns)
    × IsNewestFirst ns
    × ((n : Node) → Mem n ns ↔ (Mem n (node_b ∷ node_a ∷ []) × (n.status ≡ state_installing)))
list_by_status-list_example =
    list_by_status-list memory_bucket plain_codec state_installing two_nodes (node_b ∷ node_a ∷ [])
      listed
