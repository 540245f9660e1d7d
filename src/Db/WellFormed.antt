-- ===== src/Db/WellFormed.antt =====
-- What holds of a store between two calls of a repository, whatever implements it.
use nodefoundry.Base.{
  ◌≡◌, sym, ◌∙◌, Bool-cases, inl, inr, none, Option-cases, arith, ok, Text, text_eq, text_eq_iff,
  ◌⊎◌, subst, err, ap, true,
}
use nodefoundry.Model.{Time, Node, normalize_mac, can_transition_to, validate}
use nodefoundry.Model.Mac.{normalize_mac_idem}
use nodefoundry.Model.Lifecycle.{
  IsState, is_valid_status-IsState, Forward, Forward-refl, AllowedChange-Forward,
  can_transition_to-none_iff, Forward-trans,
}
use nodefoundry.Db.{NodeRepository, IsRepository, saved_node, RepoError}

-- A stored node is filed under its own address and has one of the three states.
pub record IsWellFormed {S : Type 0} (repo : NodeRepository S) (s : S) : Type 0 where
  pub keyed : (m : Text) (n : Node) → repo.find_by_mac m s ≡ ok n → n.mac ≡ normalize_mac m
  pub valid : (m : Text) (n : Node) → repo.find_by_mac m s ≡ ok n → IsState n.status

-- No node is lost, and no status goes back.
abbrev pub Evolves : {S : Type 0} → NodeRepository S → S → S → Type 0
Evolves repo s s' =
    (m : Text) (n : Node)
    → repo.find_by_mac m s ≡ ok n
    → (n' : Node) × (repo.find_by_mac m s' ≡ ok n') × Forward n.status n'.status

validate-IsState : (n : Node) → validate n ≡ none → IsState n.status
unfolding validate
validate-IsState n h = is_valid_status-IsState n.status (ground arith)

module _ {S : Type 0} (repo : NodeRepository S) (laws : IsRepository repo) where
  pub Evolves-refl : (s : S) → IsWellFormed repo s → Evolves repo s s
  Evolves-refl s w m n h = (n, h, Forward-refl n.status (w.valid m n h))

  pub same_entry :
      (a b : Text) (s : S)
      → normalize_mac a ≡ normalize_mac b
      → repo.find_by_mac a s ≡ repo.find_by_mac b s
  same_entry a b s h =
      sym (laws.find_normalized a s)
      ∙ subst (λ k. repo.find_by_mac k s ≡ repo.find_by_mac b s) (sym h) (laws.find_normalized b s)

  module _ (now : Time) (n : Node) (s : S) (w : IsWellFormed repo s) where
    save_entry :
        (m : Text) (n' : Node)
        → repo.find_by_mac m (repo.save now n s).2 ≡ ok n'
        → (repo.find_by_mac m s ≡ ok n')
          ⊎ ((n' ≡ saved_node now n (repo.find_by_mac n.mac s))
              × (normalize_mac n.mac ≡ normalize_mac m)
              × (validate n ≡ none))
    save_entry m n' h = elim (Option-cases (repo.save now n s).0) [
      | inr (e, failed) ↦ inl (rw (laws.save_failed now n s e failed) at h)
      | inl done ↦ elim (Bool-cases (text_eq (normalize_mac n.mac) (normalize_mac m))) [
        | inr other ↦ inl (ground (arith, laws.find_saved now n s m done))
        | inl same ↦ inr (
          ground (arith, laws.find_saved now n s m done, laws.save_kept now n s done),
          (text_eq_iff (normalize_mac n.mac) (normalize_mac m)).0 same,
          laws.save_valid now n s done,
        )
      ]
    ]

    -- `Save` keeps a store well formed, whatever node it is given.
    pub save-IsWellFormed : IsWellFormed repo (repo.save now n s).2
    save-IsWellFormed = record {
      keyed = λ m n' h. elim (save_entry m n' h) [
        | inl old ↦ w.keyed m n' old
        | inr (is, same, _) ↦ rw is same
      ];
      valid = λ m n' h. elim (save_entry m n' h) [
        | inl old ↦ w.valid m n' old
        | inr (is, _, fine) ↦ rw is (validate-IsState n fine)
      ];
    }

    -- `Save` of a node that is not behind the stored one loses no node and takes no status back.
    pub save-Evolves :
        ((old : Node) → repo.find_by_mac n.mac s ≡ ok old → Forward old.status n.status)
        → Evolves repo s (repo.save now n s).2
    save-Evolves ahead m old h = elim (Option-cases (repo.save now n s).0) [
      | inr (e, failed) ↦
          (old, rw (laws.save_failed now n s e failed) h, Forward-refl old.status (w.valid m old h))
      | inl done ↦ elim (Bool-cases (text_eq (normalize_mac n.mac) (normalize_mac m))) [
        | inr other ↦ (
          old,
          ground (arith, laws.find_saved now n s m done),
          Forward-refl old.status (w.valid m old h),
        )
        | inl same ↦
            let key : normalize_mac n.mac ≡ normalize_mac m =
              (text_eq_iff (normalize_mac n.mac) (normalize_mac m)).0 same in
            let there : repo.find_by_mac n.mac s ≡ ok old = same_entry n.mac m s key ∙ h in
            (
              saved_node now n (repo.find_by_mac n.mac s),
              ground (arith, laws.find_saved now n s m done, laws.save_kept now n s done),
              ahead old there,
            )
      ]
    ]

  module _ (now : Time) (mac : Text) (n : Node) (s : S) (w : IsWellFormed repo s) where
    -- The same for a changed copy of the node that was found.
    pub save_found-Evolves :
        (node : Node)
        → repo.find_by_mac mac s ≡ ok node
        → n.mac ≡ node.mac
        → Forward node.status n.status
        → Evolves repo s (repo.save now n s).2
    save_found-Evolves node there same ahead =
        let key : n.mac ≡ normalize_mac mac = same ∙ w.keyed mac node there in
        let again : repo.find_by_mac n.mac s ≡ ok node =
          subst (λ k. repo.find_by_mac k s ≡ ok node) (sym key)
            (laws.find_normalized mac s ∙ there) in
        save-Evolves now n s w (λ old h. let is : node ≡ old = ground arith in rw (← is) ahead)

    -- What is found after a successful save of such a copy.
    pub find-save_found :
        (node : Node) (m : Text)
        → repo.find_by_mac mac s ≡ ok node
        → n.mac ≡ node.mac
        → (repo.save now n s).0 ≡ none
        → normalize_mac m ≡ normalize_mac mac
        → repo.find_by_mac m (repo.save now n s).2
          ≡ ok
              (record n { mac = normalize_mac mac; created_at = node.created_at; updated_at = now })
    find-save_found node m there same done spelled =
        let key : n.mac ≡ normalize_mac mac = same ∙ w.keyed mac node there in
        let again : repo.find_by_mac n.mac s ≡ ok node =
          subst (λ k. repo.find_by_mac k s ≡ ok node) (sym key)
            (laws.find_normalized mac s ∙ there) in
        let filed : normalize_mac n.mac ≡ normalize_mac mac =
          ap normalize_mac key ∙ normalize_mac_idem mac in
        let hit : text_eq (normalize_mac n.mac) (normalize_mac m) ≡ true =
          (text_eq_iff (normalize_mac n.mac) (normalize_mac m)).1 (filed ∙ sym spelled) in
        let kept : saved_node now n (repo.find_by_mac n.mac s)
            ≡ record n { mac = normalize_mac mac; created_at = node.created_at; updated_at = now } =
          ground (arith, filed, again) in
        ground (arith, laws.find_saved now n s m done, laws.save_kept now n s done, hit, kept)

    -- And for a node of an address that has none.
    pub save_missing-Evolves :
        (e : RepoError)
        → repo.find_by_mac mac s ≡ err e
        → normalize_mac n.mac ≡ normalize_mac mac
        → Evolves repo s (repo.save now n s).2
    save_missing-Evolves e missing same =
        save-Evolves now n s w (λ old h. absurd (ground (arith, same_entry n.mac mac s same)))

  module _ (now : Time) (mac status : Text) (s : S) (w : IsWellFormed repo s) where
    update_entry :
        (m : Text) (n' : Node)
        → repo.find_by_mac m (repo.update_status now mac status s).1 ≡ ok n'
        → (repo.find_by_mac m s ≡ ok n')
          ⊎ ((old : Node) × (repo.find_by_mac m s ≡ ok old)
              × (can_transition_to old status ≡ none)
              × (n' ≡ record old { status = status; updated_at = now }))
    update_entry m n' h = elim (Option-cases (repo.update_status now mac status s).0) [
      | inr (e, failed) ↦ inl (rw (laws.update_failed now mac status s e failed) at h)
      | inl done ↦
          let (old, there, fine) = laws.update_found now mac status s done in
          elim (Bool-cases (text_eq (normalize_mac mac) (normalize_mac m))) [
            | inr other ↦ inl (ground (arith, laws.find_updated now mac status s old m done there))
            | inl same ↦ inr (
              old,
              same_entry m mac s (sym ((text_eq_iff (normalize_mac mac) (normalize_mac m)).0 same))
                  ∙ there,
              fine,
              ground (arith, laws.find_updated now mac status s old m done there),
            )
          ]
    ]

    -- `UpdateStatus` keeps a store well formed.
    pub update-IsWellFormed : IsWellFormed repo (repo.update_status now mac status s).1
    update-IsWellFormed = record {
      keyed = λ m n' h. elim (update_entry m n' h) [
        | inl old ↦ w.keyed m n' old
        | inr (old, there, _, is) ↦ rw is (w.keyed m old there)
      ];
      valid = λ m n' h. elim (update_entry m n' h) [
        | inl old ↦ w.valid m n' old
        | inr (old, there, fine, is) ↦
            let (q, r, eq, er, _) = (can_transition_to-none_iff old status).0 fine in rw is (r, er)
      ];
    }

    -- It loses no node and takes no status back.
    pub update-Evolves : Evolves repo s (repo.update_status now mac status s).1
    update-Evolves m old h = elim (Option-cases (repo.update_status now mac status s).0) [
      | inr (e, failed) ↦ (
        old,
        rw (laws.update_failed now mac status s e failed) h,
        Forward-refl old.status (w.valid m old h),
      )
      | inl done ↦
          let (held, there, fine) = laws.update_found now mac status s done in
          elim (Bool-cases (text_eq (normalize_mac mac) (normalize_mac m))) [
            | inr other ↦ (
              old,
              ground (arith, laws.find_updated now mac status s held m done there),
              Forward-refl old.status (w.valid m old h),
            )
            | inl same ↦
                let here : repo.find_by_mac m s ≡ ok held =
                  same_entry m mac s
                    (sym ((text_eq_iff (normalize_mac mac) (normalize_mac m)).0 same))
                  ∙ there in
                let is : held ≡ old = ground arith in
                (
                  record held { status = status; updated_at = now },
                  ground (arith, laws.find_updated now mac status s held m done there),
                  rw (← is) (
                      AllowedChange-Forward held.status status
                        ((can_transition_to-none_iff held status).0 fine)),
                )
          ]
    ]

pub Evolves-trans :
    {S : Type 0} (repo : NodeRepository S) (a b c : S)
    → Evolves repo a b
    → Evolves repo b c
    → Evolves repo a c
Evolves-trans repo a b c f g m n h =
    let (n', h', ahead) = f m n h in
    let (n'', h'', further) = g m n' h' in
    (n'', h'', Forward-trans n.status n'.status n''.status ahead further)
