-- ===== src/Api/Safety.antt =====
-- The writing handlers of internal/api/handler.go on a well-formed store.
use nodefoundry.Base.{
  ℕ, ◌≡◌, refl, sym, ap, ◌∙◌, Bool-cases, inl, inr, none, some, Option, arith, ok, Result-cases,
  Text, text_eq, codes, ◌⊎◌, err,
}
use nodefoundry.Model.{
  Time, Node, normalize_mac, new_node, is_valid_mac, state_discovered, state_installing,
}
use nodefoundry.Model.Mac.{normalize_mac_idem}
use nodefoundry.Db.{NodeRepository, IsRepository, RepoError}
use nodefoundry.Db.WellFormed.{
  IsWellFormed, Evolves, Evolves-refl, save-IsWellFormed, save_missing-Evolves, update-IsWellFormed,
  update-Evolves,
}
use nodefoundry.Api.{RegisterNodeRequest, register_new, register_node, install, update_node}
use nodefoundry.Api.Nodes.{with_ip, with_ip_fields, new_node-ok}

module _ {S : Type 0} (repo : NodeRepository S) where
  register_new-store :
      (clock : ℕ → Time) (mac ip : Text) (n : Node) (s : S)
      → new_node (clock 0) mac state_discovered ≡ ok n
      → (register_new repo clock mac ip s).1 ≡ (repo.save (clock 1) (with_ip ip n) s).2
  unfolding register_new
  register_new-store clock mac ip n s made = ground arith

  install-store :
      (now : Time) (mac : Text) (n : Node) (s : S)
      → ((install repo now mac n s).1 ≡ s)
        ⊎ ((install repo now mac n s).1 ≡ (repo.update_status now mac state_installing s).1)
  unfolding install
  install-store now mac n s = elim (Bool-cases (text_eq n.status state_discovered)) [
    | inl fresh ↦ inr (ground arith)
    | inr other ↦ inl (ground arith)
  ]

  update_node-store :
      (now : Time) (mac : Text) (action : Option Text) (s : S)
      → ((update_node repo now mac action s).1 ≡ s)
        ⊎ ((update_node repo now mac action s).1
            ≡ (repo.update_status now mac state_installing s).1)
  unfolding update_node
  update_node-store now mac none s = inl refl
  update_node-store now mac (some action) s = elim (Result-cases (repo.find_by_mac mac s)) [
    | inr (e, missing) ↦ inl (ground arith)
    | inl (n, there) ↦ elim (Bool-cases (text_eq action (codes "install"))) [
      | inr other ↦ inl (ground arith)
      | inl act ↦ elim (install-store now mac n s) [
        | inl same ↦ inl (rw (there, act, update_node) same)
        | inr done ↦ inr (rw (there, act, update_node) done)
      ]
    ]
  ]

  module _ (laws : IsRepository repo) (s : S) (w : IsWellFormed repo s) where
    -- Whatever is asked, PUT keeps a well-formed store well formed, loses no node, and takes no
    -- status back.
    pub update_node-safe :
        (now : Time) (mac : Text) (action : Option Text)
        → IsWellFormed repo (update_node repo now mac action s).1
          × Evolves repo s (update_node repo now mac action s).1
    update_node-safe now mac action = elim (update_node-store now mac action s) [
      | inl same ↦ rw same (w, Evolves-refl repo laws s w)
      | inr done ↦ rw done (
        update-IsWellFormed repo laws now mac state_installing s w,
        update-Evolves repo laws now mac state_installing s w,
      )
    ]

    register_new-safe :
        (clock : ℕ → Time) (mac ip : Text) (e : RepoError)
        → repo.find_by_mac (normalize_mac mac) s ≡ err e
        → IsWellFormed repo (register_new repo clock (normalize_mac mac) ip s).1
          × Evolves repo s (register_new repo clock (normalize_mac mac) ip s).1
    register_new-safe clock mac ip e missing =
        elim (Result-cases (new_node (clock 0) (normalize_mac mac) state_discovered)) [
          | inr (f, failed) ↦
              let same : (register_new repo clock (normalize_mac mac) ip s).1 ≡ s =
                unfold register_new in ground arith in
              rw same (w, Evolves-refl repo laws s w)
          | inl (n, made) ↦
              let filed : normalize_mac (with_ip ip n).mac ≡ normalize_mac mac =
                ap normalize_mac (
                  (with_ip_fields ip n).0
                  ∙ (new_node-ok (clock 0) (normalize_mac mac) state_discovered n made).0
                  ∙ normalize_mac_idem mac)
                ∙ normalize_mac_idem mac in
              rw (register_new-store clock (normalize_mac mac) ip n s made) (
                save-IsWellFormed repo laws (clock 1) (with_ip ip n) s w,
                save_missing-Evolves repo laws (clock 1) (normalize_mac mac) (with_ip ip n) s w e
                    missing (filed ∙ sym (normalize_mac_idem mac)),
              )
        ]

    -- So does POST, whatever it is given.
    pub register_node-safe :
        (clock : ℕ → Time) (req : Option RegisterNodeRequest)
        → IsWellFormed repo (register_node repo clock req s).1
          × Evolves repo s (register_node repo clock req s).1
    unfolding register_node
    register_node-safe clock none = (w, Evolves-refl repo laws s w)
    register_node-safe clock (some req) = elim (Bool-cases (is_valid_mac req.mac)) [
      | inr bad ↦ rw bad (w, Evolves-refl repo laws s w)
      | inl good ↦ elim (Result-cases (repo.find_by_mac (normalize_mac req.mac) s)) [
        | inl (n, there) ↦ rw (good, there) (w, Evolves-refl repo laws s w)
        | inr (e, missing) ↦ rw (good, missing) (register_new-safe clock req.mac req.ip e missing)
      ]
    ]
