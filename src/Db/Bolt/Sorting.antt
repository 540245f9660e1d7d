-- ===== src/Db/Bolt/Sorting.antt =====
-- `sortNodes` of internal/db/bolt_node_repository.go: the bubble sort by creation time.
use mathlib.Core.List.{Perm, append_assoc, append-nil}
use mathlib.Core.List.Perm
use nodefoundry.Base.{
  ℕ, zero, suc, ◌-◌, ◌≤◌, ◌≡◌, refl, ap, ◌∙◌, subst, Bool-cases, inl, inr, List, [], ◌∷◌, ◌++◌,
  arith, ltb, if◌then◌else◌, length, All,
}
use nodefoundry.Model.{Node}
use nodefoundry.Db.Bolt.{bubble_pass, bubble_passes, sort_nodes}

-- The newest node first; of equal times any order.
abbrev pub IsNewestFirst : List Node → Type 0
IsNewestFirst [] = Unit
IsNewestFirst (x ∷ xs) = All (λ y. y.created_at ≤ x.created_at) xs × IsNewestFirst xs

-- A full pass carries one node along: what it leaves behind, and the node that it ends with.
before : Node → List Node → List Node
before x [] = []
before x (y ∷ r) = if ltb x.created_at y.created_at then y ∷ before x r else x ∷ before y r

last : Node → List Node → Node
last x [] = x
last x (y ∷ r) = if ltb x.created_at y.created_at then last x r else last y r

bubble_pass_lem :
    (x : Node) (r t : List Node) → bubble_pass (length r) (x ∷ r ++ t) ≡ before x r ++ last x r ∷ t
unfolding bubble_pass before last
bubble_pass_lem x [] t = refl
bubble_pass_lem x (y ∷ r) t = elim (Bool-cases (ltb x.created_at y.created_at)) [
  | inl h ↦ rw h (ap (λ l. y ∷ l) (bubble_pass_lem x r t))
  | inr h ↦ rw h (ap (λ l. x ∷ l) (bubble_pass_lem y r t))
]

bubble_pass-length :
    (k : ℕ) (x : Node) (r t : List Node)
    → length r ≡ k
    → bubble_pass k (x ∷ r ++ t) ≡ before x r ++ last x r ∷ t
bubble_pass-length k x r t e =
    subst (λ j. bubble_pass j (x ∷ r ++ t) ≡ before x r ++ last x r ∷ t) e (bubble_pass_lem x r t)

length-before : (x : Node) (r : List Node) → length (before x r) ≡ length r
unfolding before
length-before x [] = refl
length-before x (y ∷ r) = ground (arith, length-before x r, length-before y r)

before-perm : (x : Node) (r : List Node) → Perm (before x r ++ last x r ∷ []) (x ∷ r)
unfolding before last
before-perm x [] = Perm.refl _
before-perm x (y ∷ r) = elim (Bool-cases (ltb x.created_at y.created_at)) [
  | inl h ↦ rw h (Perm.trans (Perm.cons y (before-perm x r)) (Perm.swap x y r))
  | inr h ↦ rw h (Perm.cons x (before-perm y r))
]

-- The node at the end is the oldest.
last-le : (x : Node) (r : List Node) → (last x r).created_at ≤ x.created_at
unfolding last
last-le x [] = omega arith
last-le x (y ∷ r) = elim (Bool-cases (ltb x.created_at y.created_at)) [
  | inl h ↦ rw h (last-le x r)
  | inr h ↦ rw h (ground (arith, last-le y r))
]

last-le_before :
    (x : Node) (r : List Node) → All (λ y. (last x r).created_at ≤ y.created_at) (before x r)
unfolding before last
last-le_before x [] = tt
last-le_before x (y ∷ r) = elim (Bool-cases (ltb x.created_at y.created_at)) [
  | inl h ↦ rw h (ground (arith, last-le x r), last-le_before x r)
  | inr h ↦ rw h (ground (arith, last-le y r), last-le_before y r)
]

-- What holds of all nodes before a pass holds of those that it leaves behind, and of the last.
module _ (P : Node → Type 0) where
  before-All : (x : Node) (r : List Node) → P x → All P r → All P (before x r)
  unfolding before
  before-All x [] p ps = tt
  before-All x (y ∷ r) p ps = elim (Bool-cases (ltb x.created_at y.created_at)) [
    | inl h ↦ rw h (ps.0, before-All x r p ps.1)
    | inr h ↦ rw h (p, before-All y r ps.0 ps.1)
  ]

  last-All : (x : Node) (r : List Node) → P x → All P r → P (last x r)
  unfolding last
  last-All x [] p ps = p
  last-All x (y ∷ r) p ps = elim (Bool-cases (ltb x.created_at y.created_at)) [
    | inl h ↦ rw h (last-All x r p ps.1)
    | inr h ↦ rw h (last-All y r ps.0 ps.1)
  ]

All-both : (P Q : Node → Type 0) (l : List Node) → All P l → All Q l → All (λ y. P y × Q y) l
All-both P Q [] p q = tt
All-both P Q (x ∷ l) p q = ((p.0, q.0), All-both P Q l p.1 q.1)

-- Every node of the first list is at least as new as each of the second.
abbrev AllNewer : List Node → List Node → Type 0
AllNewer f t = All (λ y. All (λ z. z.created_at ≤ y.created_at) t) f

bubble_passes-IsNewestFirst :
    (k : ℕ) (f t : List Node)
    → length f ≡ suc k
    → IsNewestFirst t
    → AllNewer f t
    → IsNewestFirst (bubble_passes k (f ++ t))
unfolding bubble_passes
bubble_passes-IsNewestFirst k [] t e s a = absurd (omega arith)
bubble_passes-IsNewestFirst zero (x ∷ []) t e s a = (a.0, s)
bubble_passes-IsNewestFirst zero (x ∷ y ∷ r) t e s a = absurd (omega arith)
bubble_passes-IsNewestFirst (suc k) (x ∷ r) t e s a =
    let len : length r ≡ suc k = omega arith in
    rw (bubble_pass-length (suc k) x r t len) (
      bubble_passes-IsNewestFirst k (before x r) (last x r ∷ t) (length-before x r ∙ len)
        (last-All (λ y. All (λ z. z.created_at ≤ y.created_at) t) x r a.0 a.1, s)
        (All-both (λ y. (last x r).created_at ≤ y.created_at)
          (λ y. All (λ z. z.created_at ≤ y.created_at) t) (before x r) (last-le_before x r)
          (before-All (λ y. All (λ z. z.created_at ≤ y.created_at) t) x r a.0 a.1)))

bubble_passes-perm :
    (k : ℕ) (f t : List Node) → length f ≡ suc k → Perm (bubble_passes k (f ++ t)) (f ++ t)
unfolding bubble_passes
bubble_passes-perm k [] t e = absurd (omega arith)
bubble_passes-perm zero (x ∷ r) t e = Perm.refl _
bubble_passes-perm (suc k) (x ∷ r) t e =
    let len : length r ≡ suc k = omega arith in
    rw (bubble_pass-length (suc k) x r t len) (
      Perm.trans (bubble_passes-perm k (before x r) (last x r ∷ t) (length-before x r ∙ len)) (
        rw (← append_assoc (before x r) (last x r ∷ []) t) (Perm.append_right t (before-perm x r))))

All-none : (f : List Node) → AllNewer f []
All-none [] = tt
All-none (x ∷ f) = (tt, All-none f)

-- `sortNodes` returns the nodes that it was given, newest first.
pub sort_nodes_lem :
    (nodes : List Node) → IsNewestFirst (sort_nodes nodes) × Perm (sort_nodes nodes) nodes
unfolding sort_nodes
sort_nodes_lem [] = (tt, Perm.refl [])
sort_nodes_lem (x ∷ r) =
    let last_index : length (x ∷ r) - 1 ≡ length r = omega arith in
    let sorted : IsNewestFirst (bubble_passes (length r) ((x ∷ r) ++ [])) =
      bubble_passes-IsNewestFirst (length r) (x ∷ r) [] refl tt (All-none (x ∷ r)) in
    let same : Perm (bubble_passes (length r) ((x ∷ r) ++ [])) ((x ∷ r) ++ []) =
      bubble_passes-perm (length r) (x ∷ r) [] refl in
    rw last_index (rw append-nil at sorted, rw append-nil at same)
