-- ===== src/Api/Nodes.antt =====
-- What registration and the install action do to the store (internal/api/handler.go).
use nodefoundry.Base.{
  ℕ, ◌≡◌, refl, sym, ap, ◌∙◌, true, inl, inr, none, some, arith, if◌then◌else◌, ok, Result-cases,
  Text, text_eq, text_eq_iff, [], ◌≢◌, Bool-cases, Option-cases, Option, codes, subst, text_eq_refl,
}
use nodefoundry.Model.{
  Time, Node, normalize_mac, new_node, is_valid_mac, state_discovered, state_installing,
}
use nodefoundry.Model.Mac.{normalize_mac_idem}
use nodefoundry.Db.{NodeRepository, IsRepository}
use nodefoundry.Api.{
  RegisterNodeRequest, get_node, one_node, register_new, register_node, found_node, update_node,
  Response, json,
}

-- The node that registration saves.
abbrev pub with_ip : Text → Node → Node
with_ip ip node = if text_eq ip [] then node else record node { ip = ip }

pub new_node-ok :
    (now : Time) (mac status : Text) (n : Node)
    → new_node now mac status ≡ ok n
    → (n.mac ≡ normalize_mac mac) × (n.status ≡ status)
unfolding new_node
new_node-ok now mac status n h = ground arith

pub with_ip_fields :
    (ip : Text) (n : Node) → ((with_ip ip n).mac ≡ n.mac) × ((with_ip ip n).status ≡ n.status)
with_ip_fields ip n = ground arith

module _ {S : Type 0} (repo : NodeRepository S) where
  register_new-code :
      (clock : ℕ → Time) (mac ip : Text) (s : S)
      → (register_new repo clock mac ip s).0.status_code ≡ 201
      → (n : Node) × (new_node (clock 0) mac state_discovered ≡ ok n)
        × ((repo.save (clock 1) (with_ip ip n) s).0 ≡ none)
        × ((register_new repo clock mac ip s).1 ≡ (repo.save (clock 1) (with_ip ip n) s).2)
        × ((register_new repo clock mac ip s).0.body
            ≡ one_node (some (repo.save (clock 1) (with_ip ip n) s).1))
  unfolding register_new
  register_new-code clock mac ip s h =
      elim (Result-cases (new_node (clock 0) mac state_discovered)) [
        | inr (e, bad) ↦ absurd (ground arith)
        | inl (n, made) ↦ (n, made, ground arith, ground arith, ground arith)
      ]

  register_node-code :
      (clock : ℕ → Time) (req : RegisterNodeRequest) (s : S)
      → (register_node repo clock (some req) s).0.status_code ≡ 201
      → (is_valid_mac req.mac ≡ true)
        × (found_node (repo.find_by_mac (normalize_mac req.mac) s) ≡ none)
        × (register_node repo clock (some req) s
            ≡ register_new repo clock (normalize_mac req.mac) req.ip s)
  unfolding register_node
  register_node-code clock req s h = (ground arith, ground arith, ground arith)

  get_node-found :
      (mac : Text) (n : Node) (s : S)
      → repo.find_by_mac mac s ≡ ok n
      → get_node repo mac s ≡ json 200 (one_node (some n))
  unfolding get_node
  get_node-found mac n s found = rw (found, get_node) refl

  -- The answer of `UpdateNode` after a successful update.
  abbrev pub installed_answer : Time → Text → S → Response × S
  installed_answer now mac s =
      let after = (repo.update_status now mac state_installing s).1 in
      (json 200 (one_node (found_node (repo.find_by_mac mac after))), after)

  pub update_node-code :
      (now : Time) (mac action : Text) (s : S)
      → (update_node repo now mac (some action) s).0.status_code ≡ 200
      → (old : Node) × (repo.find_by_mac mac s ≡ ok old)
        × (old.status ≡ state_discovered)
        × (action ≡ codes "install")
        × ((repo.update_status now mac state_installing s).0 ≡ none)
        × (update_node repo now mac (some action) s ≡ installed_answer now mac s)
  unfolding update_node
  update_node-code now mac action s h = elim (Result-cases (repo.find_by_mac mac s)) [
    | inr (e, missing) ↦ absurd (ground arith)
    | inl (old, there) ↦ (
      old,
      there,
      ground (arith, text_eq_iff old.status state_discovered),
      ground (arith, text_eq_iff action (codes "install")),
      ground arith,
      ground arith,
    )
  ]

  module _ (laws : IsRepository repo) where
    -- A registration that is answered 201 was for a valid address that had no node; the response
    -- holds the new node, which is then found under every spelling of the address, in the state
    -- discovered, and is what GET answers for the address, with 200.
    pub register_node-created :
        (clock : ℕ → Time) (req : RegisterNodeRequest) (m : Text) (s : S)
        → (register_node repo clock (some req) s).0.status_code ≡ 201
        → normalize_mac m ≡ normalize_mac req.mac
        → (n : Node) × ((register_node repo clock (some req) s).0.body ≡ one_node (some n))
          × (repo.find_by_mac m (register_node repo clock (some req) s).1 ≡ ok n)
          × (n.mac ≡ normalize_mac req.mac)
          × (n.status ≡ state_discovered)
          × (is_valid_mac req.mac ≡ true)
          × (found_node (repo.find_by_mac m s) ≡ none)
          × (get_node repo m (register_node repo clock (some req) s).1
              ≡ json 200 (one_node (some n)))
    register_node-created clock req m s h same =
        let (valid, missing, run) = register_node-code clock req s h in
        let key = normalize_mac req.mac in
        let (n, made, done, store, body) = register_new-code clock key req.ip s (rw run at h) in
        let sent = with_ip req.ip n in
        let mac : sent.mac ≡ key =
          (with_ip_fields req.ip n).0
          ∙ (new_node-ok (clock 0) key state_discovered n made).0
          ∙ normalize_mac_idem req.mac in
        let status : sent.status ≡ state_discovered =
          (with_ip_fields req.ip n).1 ∙ (new_node-ok (clock 0) key state_discovered n made).1 in
        let filed : normalize_mac sent.mac ≡ key =
          ap normalize_mac mac ∙ normalize_mac_idem req.mac in
        let hit : text_eq (normalize_mac sent.mac) (normalize_mac m) ≡ true =
          (text_eq_iff (normalize_mac sent.mac) (normalize_mac m)).1 (filed ∙ sym same) in
        let saved : Node = (repo.save (clock 1) sent s).1 in
        let kept = laws.save_kept (clock 1) sent s done in
        let found : repo.find_by_mac m (register_node repo clock (some req) s).1 ≡ ok saved =
          rw (run, store) (ground (arith, laws.find_saved (clock 1) sent s m done, hit)) in
        (
          saved,
          rw run body,
          found,
          ap (λ (x : Node). x.mac) kept ∙ filed,
          ap (λ (x : Node). x.status) kept ∙ status,
          valid,
          ground (arith, missing, laws.find_normalized m s, ap (λ k. repo.find_by_mac k s) same),
          get_node-found m saved (register_node repo clock (some req) s).1 found,
        )

    -- A registration with any other answer changes nothing in the store.
    pub register_node-refused :
        (clock : ℕ → Time) (req : Option RegisterNodeRequest) (s : S)
        → (register_node repo clock req s).0.status_code ≢ 201
        → (register_node repo clock req s).1 ≡ s
    unfolding register_node
    register_node-refused clock none s h = refl
    register_node-refused clock (some req) s h = elim (Bool-cases (is_valid_mac req.mac)) [
      | inr bad ↦ rw bad
      | inl good ↦ elim (Result-cases (repo.find_by_mac (normalize_mac req.mac) s)) [
        | inl (n, there) ↦ rw (good, there)
        | inr (e, missing) ↦
            elim (Result-cases (new_node (clock 0) (normalize_mac req.mac) state_discovered)) [
              | inr (f, failed) ↦ ground arith
              | inl (n, made) ↦ elim (Option-cases (repo.save (clock 1) (with_ip req.ip n) s).0) [
                | inl done ↦ absurd (h (ground arith))
                | inr (f, failed) ↦
                    ground (arith, laws.save_failed (clock 1) (with_ip req.ip n) s f failed)
              ]
            ]
      ]
    ]

    -- An install that is answered 200 was for a node in the state discovered; the node of the
    -- response is then found under every spelling of the address: it is the old one with the state
    -- installing and the time of the update, and nothing else changed in it.
    pub update_node-installed :
        (now : Time) (mac m : Text) (action : Option Text) (s : S)
        → (update_node repo now mac action s).0.status_code ≡ 200
        → normalize_mac m ≡ normalize_mac mac
        → (old : Node) × (repo.find_by_mac m s ≡ ok old)
          × (old.status ≡ state_discovered)
          × (action ≡ some (codes "install"))
          × (repo.find_by_mac m (update_node repo now mac action s).1
              ≡ ok (record old { status = state_installing; updated_at = now }))
          × ((update_node repo now mac action s).0.body
              ≡ one_node (some (record old { status = state_installing; updated_at = now })))
    update_node-installed now mac m none s h same = absurd (unfold update_node in omega arith)
    update_node-installed now mac m (some action) s h same =
        let (old, there, fresh, act, done, run) = update_node-code now mac action s h in
        let spelled : repo.find_by_mac m s ≡ ok old =
          sym (laws.find_normalized m s)
          ∙ subst (λ k. repo.find_by_mac k s ≡ ok old) (sym same)
              (laws.find_normalized mac s ∙ there) in
        let hit : text_eq (normalize_mac mac) (normalize_mac m) ≡ true =
          (text_eq_iff (normalize_mac mac) (normalize_mac m)).1 (sym same) in
        (
          old,
          spelled,
          fresh,
          ap some act,
          rw run
              (ground (arith, laws.find_updated now mac state_installing s old m done there, hit)),
          rw run (
              ground (
                arith,
                laws.find_updated now mac state_installing s old mac done there,
                text_eq_refl (normalize_mac mac),
              )),
        )
