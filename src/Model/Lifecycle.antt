-- ===== src/Model/Lifecycle.antt =====
-- The states of a node and the transitions that `CanTransitionTo` of internal/model/node.go allows.
use nodefoundry.Base.{
  if◌then◌else◌, ◌≡◌, refl, ◌↔◌, ◌⊎◌, inl, inr, true, false, Bool-cases, none, arith, Text, text_eq,
  text_eq_iff, text_eq_refl, sym, ℕ, ◌≤◌, ◌∙◌, ap,
}
use nodefoundry.Model.{
  Node, state_discovered, state_installing, state_installed, is_valid_status, can_transition_to,
}

-- The three states, and the edges between them.
pub data NodeState : Type 0 where
  discovered installing installed : NodeState

pub data Edge : NodeState → NodeState → Type 0 where
  start_install : Edge discovered installing
  finish_install : Edge installing installed

abbrev pub state_text : NodeState → Text
state_text discovered = state_discovered
state_text installing = state_installing
state_text installed = state_installed

-- A text that spells one of the states.
abbrev pub IsState : Text → Type 0
IsState s = (q : NodeState) × (s ≡ state_text q)

pub is_valid_status-IsState : (s : Text) → is_valid_status s ≡ true → IsState s
unfolding is_valid_status
is_valid_status-IsState s h = elim (Bool-cases (text_eq state_discovered s)) [
  | inl d ↦ (discovered, ground (arith, text_eq_iff state_discovered s))
  | inr nd ↦ elim (Bool-cases (text_eq state_installing s)) [
    | inl g ↦ (installing, ground (arith, text_eq_iff state_installing s))
    | inr ng ↦ (installed, ground (arith, text_eq_iff state_installed s))
  ]
]

pub is_valid_status-state_text : (q : NodeState) → is_valid_status (state_text q) ≡ true
unfolding is_valid_status text_eq
is_valid_status-state_text discovered = refl
is_valid_status-state_text installing = refl
is_valid_status-state_text installed = refl

-- What `CanTransitionTo` means to allow: no change, or one edge forward.
abbrev pub AllowedChange : Text → Text → Type 0
AllowedChange from to =
    (q r : NodeState) × (from ≡ state_text q) × (to ≡ state_text r) × ((q ≡ r) ⊎ Edge q r)

allowed_table :
    (n : Node) (q r : NodeState)
    → n.status ≡ state_text q
    → can_transition_to n (state_text r) ≡ none
    → (q ≡ r) ⊎ Edge q r
unfolding can_transition_to text_eq
allowed_table n discovered discovered e h = inl refl
allowed_table n discovered installing e h = inr start_install
allowed_table n installing installed e h = inr finish_install
allowed_table n installing installing e h = inl refl
allowed_table n installed installed e h = inl refl
allowed_table n discovered installed e h = cc (rw e at h)
allowed_table n installing discovered e h = cc (rw e at h)
allowed_table n installed discovered e h = cc (rw e at h)
allowed_table n installed installing e h = cc (rw e at h)

step_table :
    (n : Node) {q r : NodeState}
    → Edge q r
    → n.status ≡ state_text q
    → can_transition_to n (state_text r) ≡ none
unfolding can_transition_to text_eq
step_table n start_install e = rw e
step_table n finish_install e = rw e

same_allowed :
    (n : Node) (to : Text)
    → n.status ≡ to
    → is_valid_status to ≡ true
    → can_transition_to n to ≡ none
unfolding can_transition_to
same_allowed n to e v = simp (v, e, text_eq_refl)

unknown_current :
    (n : Node) (to : Text)
    → is_valid_status n.status ≡ false
    → can_transition_to n to ≡ none
    → n.status ≡ to
unfolding can_transition_to
unknown_current n to v h = ground (arith, text_eq_iff n.status to)

accepted_valid : (n : Node) (to : Text) → can_transition_to n to ≡ none → is_valid_status to ≡ true
unfolding can_transition_to
accepted_valid n to h = ground arith

known_current :
    (n : Node) (to : Text) → can_transition_to n to ≡ none → is_valid_status n.status ≡ true
known_current n to h = elim (Bool-cases (is_valid_status n.status)) [
  | inl v ↦ v
  | inr v ↦ rw (unknown_current n to v h) (accepted_valid n to h)
]

-- `CanTransitionTo` accepts a new status exactly when both statuses are among the three states and
-- the new one is the current one or the next: discovered, installing, installed.
pub can_transition_to-none_iff :
    (n : Node) (to : Text) → (can_transition_to n to ≡ none) ↔ AllowedChange n.status to
can_transition_to-none_iff n to = (accepted, allowed)
  where
    accepted : can_transition_to n to ≡ none → AllowedChange n.status to
    accepted h =
        let (q, eq) = is_valid_status-IsState n.status (known_current n to h) in
        let (r, er) = is_valid_status-IsState to (accepted_valid n to h) in
        (q, r, eq, er, allowed_table n q r eq (rw er at h))

    allowed : AllowedChange n.status to → can_transition_to n to ≡ none
    allowed (q, r, eq, er, inl same) =
        same_allowed n to (cc (eq, er, same)) (rw er (is_valid_status-state_text r))
    allowed (q, r, eq, er, inr edge) = rw er (step_table n edge eq)

abbrev pub rank : NodeState → ℕ
rank discovered = 0
rank installing = 1
rank installed = 2

-- Both texts are states, and the second is not behind the first.
abbrev pub Forward : Text → Text → Type 0
Forward from to =
    (q r : NodeState) × (from ≡ state_text q) × (to ≡ state_text r) × (rank q ≤ rank r)

rank_of : Text → ℕ
rank_of t = if text_eq t state_discovered then 0 else if text_eq t state_installing then 1 else 2

rank_of-state_text : (q : NodeState) → rank_of (state_text q) ≡ rank q
unfolding rank_of text_eq
rank_of-state_text discovered = refl
rank_of-state_text installing = refl
rank_of-state_text installed = refl

pub Forward-refl : (s : Text) → IsState s → Forward s s
Forward-refl s (q, e) = (q, q, e, e, omega arith)

pub Forward-trans : (a b c : Text) → Forward a b → Forward b c → Forward a c
Forward-trans a b c (q, r, ea, eb, h) (r', u, eb', ec, k) =
    let same : rank r ≡ rank r' =
      sym (rank_of-state_text r) ∙ ap rank_of (sym eb ∙ eb') ∙ rank_of-state_text r' in
    (q, u, ea, ec, omega arith)

Edge-rank : {q r : NodeState} → Edge q r → rank q ≤ rank r
Edge-rank start_install = omega arith
Edge-rank finish_install = omega arith

pub AllowedChange-Forward : (a b : Text) → AllowedChange a b → Forward a b
AllowedChange-Forward a b (q, r, ea, eb, inl same) = (q, r, ea, eb, rw same (omega arith))
AllowedChange-Forward a b (q, r, ea, eb, inr edge) = (q, r, ea, eb, Edge-rank edge)
