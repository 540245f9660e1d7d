-- ===== src/Db/Bolt/Laws.antt =====
-- The bbolt repository keeps the promises of `NodeRepository`.
use nodefoundry.Base.{
  ◌≡◌, true, none, some, Option-cases, arith, if◌then◌else◌, ok, err, Result-cases, inl, inr, Text,
  text_eq, text_eq_iff,
}
use nodefoundry.Model.{Time, Node, normalize_mac, can_transition_to, validate}
use nodefoundry.Model.Mac.{normalize_mac_idem}
use nodefoundry.Db.{RepoError, node_not_found, IsRepository, saved_node}
use nodefoundry.Db.Bolt.{
  Bucket, IsBucket, Codec, RoundTrips, update, put_node, get_node, save, find_by_mac, update_status,
  bolt_node_repository, delete,
}

module _ {Database Data : Type 0} (b : Bucket Database Data) (c : Codec Data) where
  put_node-ok :
      (mac : Text) (n : Node) (db db' : Database)
      → put_node b c mac n db ≡ ok db'
      → (v : Data) × (c.marshal n ≡ some v) × (b.put db mac v ≡ some db')
  unfolding put_node
  put_node-ok mac n db db' h = ground arith

  save_success :
      (now : Time) (n : Node) (db : Database)
      → (save b c now n db).0 ≡ none
      → (validate n ≡ none)
        × (b.has_bucket db ≡ true)
        × (put_node b c (normalize_mac n.mac) (save b c now n db).1 db ≡ ok (save b c now n db).2)
        × ((save b c now n db).1 ≡ saved_node now n (find_by_mac b c n.mac db))
  unfolding save find_by_mac
  save_success now n db h = ground arith

  save_unchanged :
      (now : Time) (n : Node) (db : Database) (e : RepoError)
      → (save b c now n db).0 ≡ some e
      → (save b c now n db).2 ≡ db
  unfolding save
  save_unchanged now n db e h = ground arith

  update_status_success :
      (now : Time) (mac status : Text) (db : Database)
      → (update_status b c now mac status db).0 ≡ none
      → (b.has_bucket db ≡ true)
        × (old : Node) × (find_by_mac b c mac db ≡ ok old)
        × (can_transition_to old status ≡ none)
        × (put_node b c (normalize_mac mac) (record old { status = status; updated_at = now }) db
            ≡ ok (update_status b c now mac status db).1)
  unfolding update_status find_by_mac
  update_status_success now mac status db h =
      elim (Result-cases (get_node b c (normalize_mac mac) db)) [
        | inl (old, e) ↦ (ground arith, old, ground arith, ground arith, ground arith)
        | inr (e, p) ↦ absurd (ground arith)
      ]

  update_status_unchanged :
      (now : Time) (mac status : Text) (db : Database) (e : RepoError)
      → (update_status b c now mac status db).0 ≡ some e
      → (update_status b c now mac status db).1 ≡ db
  unfolding update_status update
  update_status_unchanged now mac status db e h = ground arith

  module _ (bucket : IsBucket b) (json : RoundTrips c) where
    find-put :
        (mac m : Text) (n : Node) (db db' : Database)
        → b.has_bucket db ≡ true
        → put_node b c mac n db ≡ ok db'
        → find_by_mac b c m db'
          ≡ (if text_eq mac (normalize_mac m) then ok n else find_by_mac b c m db)
    unfolding find_by_mac
    find-put mac m n db db' has p =
        let (v, ev, ep) = put_node-ok mac n db db' p in
        ground (
          arith,
          bucket.get_put db db' mac (normalize_mac m) v,
          bucket.has_put db db' mac v,
          json n v,
          text_eq_iff mac (normalize_mac m),
        )

    -- Over a bucket that does what bbolt documents, and with JSON that decodes what it encoded, the
    -- repository is what its clients rely on: a failing call changes nothing, a saved node is found
    -- under every spelling of its address with its creation time kept and its status valid, an
    -- update makes only an allowed transition, and neither changes what is found for another address.
    pub bolt-IsRepository : IsRepository (bolt_node_repository b c)
    bolt-IsRepository = record {
      find_normalized = λ m s. unfold find_by_mac in rw (normalize_mac_idem m);
      save_failed = save_unchanged;
      save_kept = λ now n s h. (save_success now n s h).3;
      save_valid = λ now n s h. (save_success now n s h).0;
      find_saved = λ now n s m h.
          let ok = save_success now n s h in find-put (normalize_mac n.mac) m _ s _ ok.1 ok.2;
      update_failed = update_status_unchanged;
      update_found = λ now mac status s h.
          let ok = update_status_success now mac status s h in (ok.1, ok.2, ok.3);
      find_updated = λ now mac status s old m h found.
          let up = update_status_success now mac status s h in
          find-put (normalize_mac mac) m (record old { status = status; updated_at = now }) s _ up.0
            (ground (arith, up.2, up.4));
    }

    -- A successful `Save` stores the node it leaves in the caller's hands: under every spelling of its
    -- address it is found, with the given fields, the update time of the save and the creation time
    -- of the node that was there before, or of the save if there was none; its address is normal,
    -- its status valid, and what is found for other addresses stays.
    pub find-save :
        (now : Time) (n : Node) (m : Text) (db : Database)
        → (save b c now n db).0 ≡ none
        → (find_by_mac b c m (save b c now n db).2 ≡ (
            if text_eq (normalize_mac n.mac) (normalize_mac m)
            then ok (saved_node now n (find_by_mac b c n.mac db))
            else find_by_mac b c m db))
          × (validate n ≡ none)
    find-save now n m db h =
        let done = save_success now n db h in
        (rw (← done.3) (find-put (normalize_mac n.mac) m _ db _ done.1 done.2), done.0)

    -- When `Delete` succeeds, the node is not found any more under any spelling of its address, and
    -- nothing else changes.
    pub find-delete :
        (mac m : Text) (db : Database)
        → (delete b c mac db).0 ≡ none
        → find_by_mac b c m (delete b c mac db).1 ≡ (
            if text_eq (normalize_mac mac) (normalize_mac m)
            then err (node_not_found (normalize_mac m))
            else find_by_mac b c m db)
    unfolding delete find_by_mac
    find-delete mac m db h = elim (Option-cases (b.delete db (normalize_mac mac))) [
      | inl p ↦ absurd (ground arith)
      | inr (db', p) ↦ ground (
        arith,
        bucket.get_delete db db' (normalize_mac mac) (normalize_mac m),
        bucket.has_delete db db' (normalize_mac mac),
        text_eq_iff (normalize_mac mac) (normalize_mac m),
      )
    ]
