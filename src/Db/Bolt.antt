-- ===== src/Db/Bolt.antt =====
-- internal/db/bolt_node_repository.go: the repository over a bbolt bucket of JSON values. bbolt and
-- encoding/json are parameters.
pub mod Laws
pub mod Sorting
pub mod Listing
pub mod Memory
pub mod Samples
mod Tests
use nodefoundry.Base.{
  ℕ, zero, suc, ◌-◌, ◌≡◌, Bool, Option, none, some, List, [], ◌∷◌, ltb, if◌then◌else◌, Result, ok,
  err, Text, text_eq, length, lookup,
}
use nodefoundry.Model.{Time, Node, normalize_mac, can_transition_to, validate}
use nodefoundry.Db.{
  RepoError, rejected, node_not_found, bad_transition, bucket_not_found, decode_failed,
  encode_failed, put_failed, delete_failed, commit_failed, NodeRepository,
}

-- What the code calls of go.etcd.io/bbolt, on the one bucket "nodes" of a database.
pub record Bucket (Database Data : Type 0) : Type 0 where
  -- `tx.Bucket(name) != nil`
  pub has_bucket : Database → Bool
  -- `tx.CreateBucketIfNotExists(name)`; `none` is an error
  pub create : Database → Option Database
  -- `b.Get(key)`
  pub get : Database → Text → Option Data
  -- `b.Put(key, value)`
  pub put : Database → Text → Data → Option Database
  -- `b.Delete(key)`
  pub delete : Database → Text → Option Database
  -- the order in which `b.ForEach` meets the pairs
  pub entries : Database → List (Text × Data)
  -- whether the commit of a transaction that leads from the first to the second succeeds
  pub commits : Database → Database → Bool

-- What bbolt documents of them.
pub record IsBucket {Database Data : Type 0} (b : Bucket Database Data) : Type 0 where
  pub get_put :
      (d d' : Database) (k j : Text) (v : Data)
      → b.put d k v ≡ some d'
      → b.get d' j ≡ (if text_eq k j then some v else b.get d j)
  pub has_put :
      (d d' : Database) (k : Text) (v : Data)
      → b.put d k v ≡ some d'
      → b.has_bucket d' ≡ b.has_bucket d
  pub get_delete :
      (d d' : Database) (k j : Text)
      → b.delete d k ≡ some d'
      → b.get d' j ≡ (if text_eq k j then none else b.get d j)
  pub has_delete :
      (d d' : Database) (k : Text) → b.delete d k ≡ some d' → b.has_bucket d' ≡ b.has_bucket d
  pub entries_get : (d : Database) (k : Text) → lookup (b.entries d) k ≡ b.get d k

-- What it calls of encoding/json; `none` is an error.
pub record Codec (Data : Type 0) : Type 0 where
  pub marshal : Node → Option Data
  pub unmarshal : Data → Option Node

-- A node that was encoded decodes to itself.
abbrev pub RoundTrips : {Data : Type 0} → Codec Data → Type 0
RoundTrips {Data} c = (n : Node) (v : Data) → c.marshal n ≡ some v → c.unmarshal v ≡ some n

-- The inner loop of `sortNodes` with `k` comparisons.
unfoldable pub bubble_pass : ℕ → List Node → List Node
bubble_pass (suc k) (x ∷ y ∷ rest) =
    let swapped = y ∷ bubble_pass k (x ∷ rest) in
    let stayed = x ∷ bubble_pass k (y ∷ rest) in
    if ltb x.created_at y.created_at then swapped else stayed
bubble_pass _ nodes = nodes

-- Its outer loop: passes of `k`, `k - 1`, ..., 1 comparisons.
unfoldable pub bubble_passes : ℕ → List Node → List Node
unfolding bubble_pass
bubble_passes zero nodes = nodes
bubble_passes (suc k) nodes = bubble_passes k (bubble_pass (suc k) nodes)

unfoldable pub sort_nodes : List Node → List Node
unfolding bubble_passes
sort_nodes nodes = bubble_passes (length nodes - 1) nodes

-- The loop of `ListByStatus`.
unfoldable pub with_status : Text → List Node → List Node
with_status status [] = []
with_status status (n ∷ rest) =
    let kept = with_status status rest in if text_eq n.status status then n ∷ kept else kept

-- What `InitializeDB` fails with.
pub data OpenError : Type 0 where
  failed_to_open : OpenError
  failed_to_create_bucket : RepoError → OpenError

module _ {Database Data : Type 0} (b : Bucket Database Data) (c : Codec Data) where
  -- `db.Update`: an error of the function, or of the commit, leaves the database as it was.
  unfoldable pub update : Database → Result RepoError Database → Option RepoError × Database
  update db (err e) = (some e, db)
  update db (ok db') = if b.commits db db' then (none, db') else (some commit_failed, db)

  -- `initBucket`, which `NewBoltNodeRepository` calls
  unfoldable pub init_bucket : Database → Option RepoError × Database
  unfolding update
  init_bucket db = update db (elim (b.create db) [ none ↦ err put_failed | some db' ↦ ok db' ])

  -- `InitializeDB`, of what `bbolt.Open` returned; `none` is its error.
  unfoldable pub initialize_db : Option Database → Result OpenError Database
  unfolding init_bucket
  initialize_db none = err failed_to_open
  initialize_db (some db) = elim (init_bucket db).0 [
    | some e ↦ err (failed_to_create_bucket e)
    | none ↦ ok (init_bucket db).1
  ]

  -- `NewBoltNodeRepository`, which goes on after an error of `initBucket`: the database that the
  -- repository works on.
  unfoldable pub new_repository : Database → Database
  unfolding init_bucket
  new_repository db = (init_bucket db).1

  -- `json.Marshal` and `b.Put`
  unfoldable pub put_node : Text → Node → Database → Result RepoError Database
  put_node mac node db = elim (c.marshal node) [
    | none ↦ err encode_failed
    | some data' ↦ elim (b.put db mac data') [ none ↦ err put_failed | some db' ↦ ok db' ]
  ]

  -- `b.Get` and `json.Unmarshal`, of an existing bucket
  unfoldable pub get_node : Text → Database → Result RepoError Node
  get_node mac db = elim (b.get db mac) [
    | none ↦ err (node_not_found mac)
    | some data' ↦ elim (c.unmarshal data') [ none ↦ err decode_failed | some node ↦ ok node ]
  ]

  -- The end of `Save`'s transaction, when `CreatedAt` is set.
  unfoldable pub stamp_and_put : Time → Text → Node → Database → Result RepoError Database × Node
  unfolding put_node
  stamp_and_put now mac node db =
      let stamped = record node { mac = mac; updated_at = now } in
      (put_node mac stamped db, stamped)

  -- `Save`'s transaction: the database to commit, and the node as the closure leaves it.
  unfoldable pub save_tx : Time → Text → Node → Database → Result RepoError Database × Node
  unfolding stamp_and_put
  save_tx now mac node db =
      if b.has_bucket db
      then elim (b.get db mac) [
        | none ↦ stamp_and_put now mac (record node { created_at = now }) db
        | some data' ↦ elim (c.unmarshal data') [
          | none ↦ (err decode_failed, node)
          | some existing ↦
              stamp_and_put now mac (record node { created_at = existing.created_at }) db
        ]
      ]
      else (err bucket_not_found, node)

  unfoldable pub save : Time → Node → Database → Option RepoError × Node × Database
  unfolding save_tx update
  save now node db = elim (validate node) [
    | some e ↦ (some (rejected e), node, db)
    | none ↦
        let tx = save_tx now (normalize_mac node.mac) node db in
        let done = update db tx.0 in (done.0, tx.1, done.1)
  ]

  unfoldable pub find_by_mac : Text → Database → Result RepoError Node
  unfolding get_node
  find_by_mac mac db =
      if b.has_bucket db then get_node (normalize_mac mac) db else err bucket_not_found

  -- `ForEach` with the function of `List`, which stops at the first error.
  unfoldable pub decode_all : List (Text × Data) → Result RepoError (List Node)
  decode_all [] = ok []
  decode_all ((_, data') ∷ rest) = elim (c.unmarshal data') [
    | none ↦ err decode_failed
    | some node ↦ elim (decode_all rest) [ err e ↦ err e | ok nodes ↦ ok (node ∷ nodes) ]
  ]

  unfoldable pub list : Database → Result RepoError (List Node)
  unfolding decode_all sort_nodes
  list db =
      if b.has_bucket db
      then elim (decode_all (b.entries db)) [ err e ↦ err e | ok nodes ↦ ok (sort_nodes nodes) ]
      else err bucket_not_found

  unfoldable pub list_by_status : Text → Database → Result RepoError (List Node)
  unfolding list with_status
  list_by_status status db = elim (list db) [
    | err e ↦ err e
    | ok nodes ↦ ok (with_status status nodes)
  ]

  -- The transaction of `UpdateStatus`.
  unfoldable pub update_status_tx : Time → Text → Text → Database → Result RepoError Database
  unfolding get_node put_node
  update_status_tx now mac status db =
      if b.has_bucket db
      then elim (get_node mac db) [
        | err e ↦ err e
        | ok node ↦ elim (can_transition_to node status) [
          | some _ ↦ err (bad_transition node.status status)
          | none ↦ put_node mac (record node { status = status; updated_at = now }) db
        ]
      ]
      else err bucket_not_found

  unfoldable pub update_status : Time → Text → Text → Database → Option RepoError × Database
  unfolding update_status_tx update
  update_status now mac status db = update db (update_status_tx now (normalize_mac mac) status db)

  -- The transaction of `Delete`.
  unfoldable pub delete_tx : Text → Database → Result RepoError Database
  delete_tx mac db =
      if b.has_bucket db
      then elim (b.get db mac) [
        | none ↦ err (node_not_found mac)
        | some _ ↦ elim (b.delete db mac) [ none ↦ err delete_failed | some db' ↦ ok db' ]
      ]
      else err bucket_not_found

  unfoldable pub delete : Text → Database → Option RepoError × Database
  unfolding delete_tx update
  delete mac db = update db (delete_tx (normalize_mac mac) db)

  abbrev pub bolt_node_repository : NodeRepository Database
  bolt_node_repository = record {
    save = save;
    find_by_mac = find_by_mac;
    list = list;
    list_by_status = list_by_status;
    update_status = update_status;
    delete = delete;
  }
