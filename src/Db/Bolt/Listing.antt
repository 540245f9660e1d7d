-- ===== src/Db/Bolt/Listing.antt =====
-- `List` and `ListByStatus` of internal/db/bolt_node_repository.go.
use mathlib.Core.List.{Mem, mem-cons, not-mem-nil, mem-cons_self, mem-cons_of_mem, Mem-prop}
use mathlib.Core.HLevel.{×_prop}
use mathlib.Core.List.Perm
use mathlib.Core.Logic.Or
use nodefoundry.Base.{
  ◌≡◌, ◌↔◌, true, Bool-cases, inl, inr, some, Option-cases, List, [], ◌∷◌, arith, ok, Result-cases,
  Text, text_eq, text_eq_iff, GoMap, lookup, All, subst, ◌≤◌, ◌∙◌,
}
use nodefoundry.Model.{Node, normalize_mac}
use nodefoundry.Db.Bolt.{
  Bucket, IsBucket, Codec, decode_all, with_status, find_by_mac, list, list_by_status, sort_nodes,
}
use nodefoundry.Db.Bolt.Sorting.{IsNewestFirst, sort_nodes_lem}

text_prop : (s t : Text) → IsProp (s ≡ t)
text_prop s t = hlevel

-- `ListByStatus` keeps the nodes with the status, and all of them.
with_status-mem :
    (st : Text) (n : Node) (ns : List Node) → Mem n (with_status st ns) → Mem n ns × (n.status ≡ st)
unfolding with_status
with_status-mem st n [] m = absurd (not-mem-nil m)
with_status-mem st n (x ∷ r) m = elim (Bool-cases (text_eq x.status st)) [
  | inl h ↦
      Or.elim (×_prop Mem-prop (text_prop n.status st)) (mem-cons.0 (rw h at m))
        (λ e. (rw e mem-cons_self, rw e ((text_eq_iff x.status st).0 h)))
        (λ t. let (old, same) = with_status-mem st n r t in (mem-cons_of_mem x old, same))
  | inr h ↦ let (old, same) = with_status-mem st n r (rw h at m) in (mem-cons_of_mem x old, same)
]

mem-with_status :
    (st : Text) (n : Node) (ns : List Node) → Mem n ns → n.status ≡ st → Mem n (with_status st ns)
unfolding with_status
mem-with_status st n [] m e = absurd (not-mem-nil m)
mem-with_status st n (x ∷ r) m e =
    Or.elim Mem-prop (mem-cons.0 m)
      (λ same.
        let kept : text_eq x.status st ≡ true =
          (text_eq_iff x.status st).1 (subst (λ y. y.status ≡ st) same e) in
        rw kept (rw same mem-cons_self))
      (λ later.
        let ih = mem-with_status st n r later e in
        elim (Bool-cases (text_eq x.status st)) [
          | inl h ↦ rw h (mem-cons_of_mem x ih)
          | inr h ↦ rw h ih
        ])

with_status-All :
    (P : Node → Type 0) (st : Text) (ns : List Node) → All P ns → All P (with_status st ns)
unfolding with_status
with_status-All P st [] h = tt
with_status-All P st (x ∷ r) h = elim (Bool-cases (text_eq x.status st)) [
  | inl e ↦ rw e (h.0, with_status-All P st r h.1)
  | inr e ↦ rw e (with_status-All P st r h.1)
]

with_status-IsNewestFirst :
    (st : Text) (ns : List Node) → IsNewestFirst ns → IsNewestFirst (with_status st ns)
unfolding with_status
with_status-IsNewestFirst st [] h = tt
with_status-IsNewestFirst st (x ∷ r) h = elim (Bool-cases (text_eq x.status st)) [
  | inl e ↦ rw e (
    with_status-All (λ y. y.created_at ≤ x.created_at) st r h.0,
    with_status-IsNewestFirst st r h.1,
  )
  | inr e ↦ rw e (with_status-IsNewestFirst st r h.1)
]

module _ {Database Data : Type 0} (b : Bucket Database Data) (c : Codec Data) where
  -- A value that a key has decodes to a node of the list.
  mem-decode_all :
      (m : GoMap Data) (k : Text) (v : Data) (n : Node) (ns : List Node)
      → lookup m k ≡ some v
      → c.unmarshal v ≡ some n
      → decode_all b c m ≡ ok ns
      → Mem n ns
  unfolding lookup decode_all
  mem-decode_all [] k v n ns l u d = absurd (cc)
  mem-decode_all ((j, w) ∷ m) k v n [] l u d = absurd (ground arith)
  mem-decode_all ((j, w) ∷ m) k v n (x ∷ r) l u d = elim (Bool-cases (text_eq j k)) [
    | inl e ↦ let same : n ≡ x = ground arith in rw same mem-cons_self
    | inr e ↦ mem-cons_of_mem x (mem-decode_all m k v n r (rw e at l) u (ground arith))
  ]

  list-decode :
      (db : Database) (ns : List Node)
      → list b c db ≡ ok ns
      → (raw : List Node) × (decode_all b c (b.entries db) ≡ ok raw) × (ns ≡ sort_nodes raw)
  unfolding list
  list-decode db ns h = elim (Result-cases (decode_all b c (b.entries db))) [
    | inl (raw, e) ↦ (raw, e, ground arith)
    | inr (e, p) ↦ absurd (ground arith)
  ]

  find-stored :
      (m : Text) (db : Database) (n : Node)
      → find_by_mac b c m db ≡ ok n
      → (v : Data) × (b.get db (normalize_mac m) ≡ some v) × (c.unmarshal v ≡ some n)
  unfolding find_by_mac
  find-stored m db n h = elim (Option-cases (b.get db (normalize_mac m))) [
    | inl e ↦ absurd (ground arith)
    | inr (v, e) ↦ (v, e, ground arith)
  ]

  list-IsNewestFirst : (db : Database) (ns : List Node) → list b c db ≡ ok ns → IsNewestFirst ns
  list-IsNewestFirst db ns h = let (raw, d, e) = list-decode db ns h in rw e (sort_nodes_lem raw).0

  -- When `List` succeeds and `FindByMAC` finds a node, over a bucket that does what bbolt documents,
  -- the nodes come newest first and the found node is among them.
  pub mem-list :
      (bucket : IsBucket b) (db : Database) (ns : List Node) (m : Text) (n : Node)
      → list b c db ≡ ok ns
      → find_by_mac b c m db ≡ ok n
      → IsNewestFirst ns × Mem n ns
  mem-list bucket db ns m n h found =
      let (raw, d, e) = list-decode db ns h in
      let (v, at, decoded) = find-stored m db n found in
      (
        list-IsNewestFirst db ns h,
        rw e (
            Perm.subset (Perm.symm (sort_nodes_lem raw).1) n (
              mem-decode_all (b.entries db) (normalize_mac m) v n raw
                (bucket.entries_get db (normalize_mac m) ∙ at) decoded d)),
      )

  -- When `List` succeeds, so does `ListByStatus`; it returns, newest first, exactly the listed nodes
  -- that have the status.
  pub list_by_status-list :
      (st : Text) (db : Database) (all : List Node)
      → list b c db ≡ ok all
      → (ns : List Node) × (list_by_status b c st db ≡ ok ns)
        × IsNewestFirst ns
        × ((n : Node) → Mem n ns ↔ (Mem n all × (n.status ≡ st)))
  unfolding list_by_status
  list_by_status-list st db all h =
      let (raw, d, e) = list-decode db all h in
      (
        with_status st all,
        ground arith,
        with_status-IsNewestFirst st all (rw e (sort_nodes_lem raw).0),
        λ n. (with_status-mem st n all, λ (m, s). mem-with_status st n all m s),
      )
