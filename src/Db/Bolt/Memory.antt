-- ===== src/Db/Bolt/Memory.antt =====
-- A bucket in memory and a codec that keeps nodes as they are: they show that what is assumed of bbolt
-- and encoding/json can hold, and the tests run over them.
use nodefoundry.Base.{
  ℕ, ◌≡◌, refl, true, false, Option, none, some, [], ◌∷◌, arith, if◌then◌else◌, Text, text_eq,
  codes, GoMap, lookup, insert, erase, lookup-insert, lookup-erase,
}
use nodefoundry.Model.{Node, state_discovered, state_installing}
use nodefoundry.Db.{NodeRepository}
use nodefoundry.Db.Bolt.{Bucket, IsBucket, Codec, RoundTrips, bolt_node_repository}

-- `none` is a database whose bucket was not created.
abbrev pub Memory : Type 0
Memory = Option (GoMap Node)

abbrev pub pairs : Memory → GoMap Node
pairs none = []
pairs (some m) = m

abbrev pub memory_bucket : Bucket Memory Node
memory_bucket = record {
  has_bucket = λ d. elim d [ none ↦ false | some m ↦ true ];
  create = λ d. some (some (pairs d));
  get = λ d k. lookup (pairs d) k;
  put = λ d k v. elim d [
    | none ↦ none
    | some m ↦ if text_eq k [] then none else some (some (insert m k v))
  ];
  delete = λ d k. elim d [ none ↦ none | some m ↦ some (some (erase m k)) ];
  entries = pairs;
  commits = λ d d'. true;
}

pub memory_bucket-IsBucket : IsBucket memory_bucket
memory_bucket-IsBucket = record {
  get_put = get_put;
  has_put = λ d d' k v h. ground arith;
  get_delete = get_delete;
  has_delete = λ d d' k h. ground arith;
  entries_get = λ d k. refl;
}
  where
    get_put :
        (d d' : Memory) (k j : Text) (v : Node)
        → memory_bucket.put d k v ≡ some d'
        → memory_bucket.get d' j ≡ (if text_eq k j then some v else memory_bucket.get d j)
    get_put none d' k j v h = absurd (cc)
    get_put (some m) d' k j v h = ground (arith, lookup-insert m k j v)

    get_delete :
        (d d' : Memory) (k j : Text)
        → memory_bucket.delete d k ≡ some d'
        → memory_bucket.get d' j ≡ (if text_eq k j then none else memory_bucket.get d j)
    get_delete none d' k j h = absurd (cc)
    get_delete (some m) d' k j h = ground (arith, lookup-erase m k j)

abbrev pub plain_codec : Codec Node
plain_codec = record { marshal = some; unmarshal = some }

pub plain_codec-RoundTrips : RoundTrips plain_codec
plain_codec-RoundTrips n v h = ground arith

abbrev pub memory_repository : NodeRepository Memory
memory_repository = bolt_node_repository memory_bucket plain_codec

abbrev pub empty_store : Memory
empty_store = some []

-- A node as `NewNode` makes it, and the same at a later time and in another state.
abbrev pub node_at : Text → Text → ℕ → Node
node_at mac status now = record {
  mac = mac;
  ip = [];
  netmask = [];
  gateway = [];
  dns = [];
  hostname = [];
  status = status;
  last_heartbeat = 0;
  created_at = now;
  updated_at = now;
  extra = [];
}

abbrev pub mac_a : Text
mac_a = codes "aabbccddeeff"

abbrev pub mac_b : Text
mac_b = codes "112233445566"

abbrev pub node_a : Node
node_a = node_at mac_a state_discovered 5

abbrev pub node_b : Node
node_b = node_at mac_b state_installing 7

abbrev pub two_nodes : Memory
two_nodes = some ((mac_a, node_a) ∷ (mac_b, node_b) ∷ [])
