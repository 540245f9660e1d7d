-- ===== src/Db/Creation.antt =====
-- What no call of the repository takes away: a node, and the time of its creation.
use nodefoundry.Base.{
  ◌≡◌, refl, sym, ◌∙◌, ap, Bool-cases, Option-cases, inl, inr, ok, arith, Text, text_eq,
  text_eq_iff,
}
use nodefoundry.Model.{Time, Node, normalize_mac}
use nodefoundry.Db.{NodeRepository, IsRepository, saved_node}
use nodefoundry.Db.WellFormed.{same_entry}

-- Each node of the first store is in the second, created at the same time.
abbrev pub Keeps : {S : Type 0} → NodeRepository S → S → S → Type 0
Keeps repo s s' =
    (m : Text) (n : Node)
    → repo.find_by_mac m s ≡ ok n
    → (n' : Node) × (repo.find_by_mac m s' ≡ ok n') × (n'.created_at ≡ n.created_at)

module _ {S : Type 0} (repo : NodeRepository S) where
  pub Keeps-refl : (s : S) → Keeps repo s s
  Keeps-refl s m n h = (n, h, refl)

  pub Keeps-trans : (s t u : S) → Keeps repo s t → Keeps repo t u → Keeps repo s u
  Keeps-trans s t u first later m n h =
      let (n', h', same) = first m n h in
      let (n'', h'', same') = later m n' h' in (n'', h'', same' ∙ same)

  module _ (laws : IsRepository repo) where
    pub save-Keeps : (now : Time) (n : Node) (s : S) → Keeps repo s (repo.save now n s).2
    save-Keeps now n s m old h = elim (Option-cases (repo.save now n s).0) [
      | inr (e, failed) ↦ (old, rw (laws.save_failed now n s e failed) h, refl)
      | inl done ↦ elim (Bool-cases (text_eq (normalize_mac n.mac) (normalize_mac m))) [
        | inr other ↦ (old, ground (arith, laws.find_saved now n s m done), refl)
        | inl same ↦
            let there : repo.find_by_mac n.mac s ≡ ok old =
              same_entry repo laws n.mac m s
                ((text_eq_iff (normalize_mac n.mac) (normalize_mac m)).0 same)
              ∙ h in
            (
              saved_node now n (repo.find_by_mac n.mac s),
              ground (arith, laws.find_saved now n s m done, laws.save_kept now n s done),
              rw there refl,
            )
      ]
    ]

    pub update-Keeps :
        (now : Time) (mac status : Text) (s : S)
        → Keeps repo s (repo.update_status now mac status s).1
    update-Keeps now mac status s m old h =
        elim (Option-cases (repo.update_status now mac status s).0) [
          | inr (e, failed) ↦ (old, rw (laws.update_failed now mac status s e failed) h, refl)
          | inl done ↦
              let (held, there, fine) = laws.update_found now mac status s done in
              elim (Bool-cases (text_eq (normalize_mac mac) (normalize_mac m))) [
                | inr other ↦ (
                  old,
                  ground (arith, laws.find_updated now mac status s held m done there),
                  refl,
                )
                | inl same ↦
                    let here : repo.find_by_mac m s ≡ ok held =
                      same_entry repo laws m mac s
                        (sym ((text_eq_iff (normalize_mac mac) (normalize_mac m)).0 same))
                      ∙ there in
                    let is : held ≡ old = ground arith in
                    (
                      record held { status = status; updated_at = now },
                      ground (arith, laws.find_updated now mac status s held m done there),
                      ap (λ (x : Node). x.created_at) is,
                    )
              ]
        ]
