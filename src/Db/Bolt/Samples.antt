-- ===== src/Db/Bolt/Samples.antt =====
-- A well-formed store of two nodes in memory, for the tests of the modules above the repository.
use nodefoundry.Base.{arith, lookup, insert, text_eq}
use nodefoundry.Model.{validate, normalize_mac}
use nodefoundry.Db.{IsRepository}
use nodefoundry.Db.WellFormed.{IsWellFormed, save-IsWellFormed}
use nodefoundry.Db.Bolt.{save, find_by_mac}
use nodefoundry.Db.Bolt.Memory.{
  memory_repository, memory_bucket, memory_bucket-IsBucket, plain_codec, plain_codec-RoundTrips,
  empty_store, two_nodes, node_a, node_b,
}
use nodefoundry.Db.Bolt.Laws.{bolt-IsRepository}

pub memory_laws : IsRepository memory_repository
memory_laws =
    bolt-IsRepository memory_bucket plain_codec memory_bucket-IsBucket plain_codec-RoundTrips

empty_store-IsWellFormed : IsWellFormed memory_repository empty_store
unfolding find_by_mac lookup
empty_store-IsWellFormed = record {
  keyed = λ m n h. absurd (ground arith);
  valid = λ m n h. absurd (ground arith);
}

one_node-IsWellFormed :
    IsWellFormed memory_repository (memory_repository.save 7 node_b empty_store).2
one_node-IsWellFormed =
    save-IsWellFormed memory_repository memory_laws 7 node_b empty_store empty_store-IsWellFormed

pub two_nodes-IsWellFormed : IsWellFormed memory_repository two_nodes
unfolding save validate text_eq normalize_mac insert lookup
two_nodes-IsWellFormed =
    save-IsWellFormed memory_repository memory_laws 5 node_a
      (memory_repository.save 7 node_b empty_store).2 one_node-IsWellFormed
