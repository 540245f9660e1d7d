-- ===== src/Dhcp/Server/Safety.antt =====
-- The DHCP handler of internal/dhcp/server.go on a well-formed store.
use nodefoundry.Base.{
  ◌||◌, ℕ, ◌≡◌, refl, sym, ap, ◌∙◌, true, false, Bool-cases, inl, inr, none, some, Option, arith,
  ok, Result-cases, Option-cases, Text, text_eq, ◌⊎◌, [], text_eq_iff, Bool,
}
use nodefoundry.Model.{Time, Node, normalize_mac, new_node, state_discovered}
use nodefoundry.Model.Mac.{normalize_mac_idem}
use nodefoundry.Model.Lifecycle.{Forward-refl}
use nodefoundry.Db.{NodeRepository, IsRepository}
use nodefoundry.Db.WellFormed.{
  IsWellFormed, Evolves, Evolves-refl, Evolves-trans, save-IsWellFormed, save_missing-Evolves,
  save_found-Evolves,
}
use nodefoundry.Api.Nodes.{new_node-ok}
use nodefoundry.Dhcp.Ip.{Ip, hardware_string, is_unspecified}
use nodefoundry.Dhcp.Pool.{IpManager, returns, Run-cases}
use nodefoundry.Dhcp.Message.{Message, MessageType, discover, request}
use nodefoundry.Dhcp.Server.{
  DhcpServer, World, with_network, persist_network, respond, build_response, found_or_new,
  handle_standard, handle_proxy_discover, handle_dhcp, save_and_respond,
}

pub with_network_fields :
    (m : IpManager) (ip : Ip) (n : Node)
    → ((with_network m ip n).mac ≡ n.mac) × ((with_network m ip n).status ≡ n.status)
unfolding with_network
with_network_fields m ip n = ground arith

module _ {S : Type 0} (repo : NodeRepository S) (s : DhcpServer) where
  -- The store after the answer: as it was, or with the network configuration saved.
  persist_network-store :
      (now : Time) (resp : Message) (n : Node) (w : World S)
      → ((persist_network repo s now resp n w).store ≡ w.store)
        ⊎ ((m : IpManager) × ((persist_network repo s now resp n w).store
              ≡ (repo.save now (with_network m resp.your_ip n) w.store).2))
  unfolding persist_network
  persist_network-store now resp n w = elim (Option-cases w.pool) [
    | inl bare ↦ inl (ground arith)
    | inr (m, pool) ↦ elim (Bool-cases (text_eq resp.your_ip [] || is_unspecified resp.your_ip)) [
      | inl skip ↦ inl (ground arith)
      | inr assigned ↦ inr (m, ground arith)
    ]
  ]

  respond-store :
      (clock : ℕ → Time) (msg : Message) (n : Node) (w w' : World S)
      → respond repo s clock msg n w ≡ returns w'
      → (w'.store ≡ w.store)
        ⊎ ((m : IpManager) × (ip : Ip) × (w'.store
              ≡ (repo.save (clock 3) (with_network m ip n) w.store).2))
  unfolding respond
  respond-store clock msg n w w' h = elim (Run-cases (build_response s (clock 2) msg w.pool)) [
    | inr other ↦ absurd (ground arith)
    | inl (built, run) ↦ elim (Result-cases built.0) [
      | inr (e, failed) ↦ inl (ground arith)
      | inl (resp, sent) ↦
          let mid : World S = record w { pool = built.1 } in
          let after : w'.store ≡ (persist_network repo s (clock 3) resp n mid).store =
            ground arith in
          elim (persist_network-store (clock 3) resp n mid) [
            | inl same ↦ inl (after ∙ same)
            | inr (m, saved) ↦ inr (m, resp.your_ip, after ∙ saved)
          ]
    ]
  ]

  pub proxy-store :
      (msg : Message) (w : World S) → (handle_proxy_discover repo s msg w).store ≡ w.store
  unfolding handle_proxy_discover
  proxy-store msg w = ground arith

  -- What the handler does with a message of each type, in each mode.
  handle_typed :
      (t : MessageType) (proxy : Bool) (clock : ℕ → Time) (msg : Message) (w w' : World S)
      → msg.message_type ≡ t
      → s.proxy_mode ≡ proxy
      → handle_dhcp repo s clock (some msg) w ≡ returns w'
      → (handle_standard repo s clock msg w ≡ returns w') ⊎ (w'.store ≡ w.store)
  unfolding handle_dhcp
  handle_typed discover false clock msg w w' et ep h = inl (ground arith)
  handle_typed request false clock msg w w' et ep h = inl (ground arith)
  handle_typed discover true clock msg w w' et ep h = inr (ground (arith, proxy-store msg w))
  handle_typed _ _ clock msg w w' et ep h = inr (ground arith)

  module _ (laws : IsRepository repo) where
    -- After the first save of a node with the address of the message, the answer keeps the store well
    -- formed, loses no node and takes no status back.
    respond-safe :
        (clock : ℕ → Time) (msg : Message) (mac : Text) (n : Node) (w w' : World S)
        → IsWellFormed repo w.store
        → repo.find_by_mac mac w.store ≡ ok n
        → respond repo s clock msg n w ≡ returns w'
        → IsWellFormed repo w'.store × Evolves repo w.store w'.store
    respond-safe clock msg mac n w w' wf there h = elim (respond-store clock msg n w w' h) [
      | inl same ↦ rw same (wf, Evolves-refl repo laws w.store wf)
      | inr (m, ip, saved) ↦
          let fields = with_network_fields m ip n in
          rw saved (
            save-IsWellFormed repo laws (clock 3) (with_network m ip n) w.store wf,
            save_found-Evolves repo laws (clock 3) mac (with_network m ip n) w.store wf n there
                fields.0 (rw fields.1 (Forward-refl n.status (wf.valid mac n there))),
          )
    ]

    -- The node that the handler saves first has the normalised address, and is the stored one or new.
    found_or_new_lem :
        (clock : ℕ → Time) (mac : Text) (n : Node) (st : S)
        → IsWellFormed repo st
        → found_or_new repo s clock (normalize_mac mac) st ≡ some n
        → (normalize_mac n.mac ≡ normalize_mac mac)
          × ((now : Time) → Evolves repo st (repo.save now n st).2)
    unfolding found_or_new
    found_or_new_lem clock mac n st wf h =
        elim (Result-cases (repo.find_by_mac (normalize_mac mac) st)) [
          | inl (old, there) ↦
              let is : old ≡ n = ground arith in
              let key : n.mac ≡ normalize_mac (normalize_mac mac) =
                rw (← is) (wf.keyed (normalize_mac mac) old there) in
              (
                ap normalize_mac key
                    ∙ normalize_mac_idem (normalize_mac mac)
                    ∙ normalize_mac_idem mac,
                λ now.
                    save_found-Evolves repo laws now (normalize_mac mac) n st wf old there
                      (ap (λ (x : Node). x.mac) (sym is))
                      (rw is (
                        Forward-refl n.status (rw is at (wf.valid (normalize_mac mac) old there)))),
              )
          | inr (e, missing) ↦
              elim (Result-cases (new_node (clock 0) (normalize_mac mac) state_discovered)) [
                | inr (f, failed) ↦ absurd (ground arith)
                | inl (fresh, made) ↦
                    let is : fresh ≡ n = ground arith in
                    let key : n.mac ≡ normalize_mac (normalize_mac mac) =
                      rw (← is)
                        (new_node-ok (clock 0) (normalize_mac mac) state_discovered fresh made).0 in
                    let filed : normalize_mac n.mac ≡ normalize_mac mac =
                      ap normalize_mac key
                      ∙ normalize_mac_idem (normalize_mac mac)
                      ∙ normalize_mac_idem mac in
                    (
                      filed,
                      λ now.
                          save_missing-Evolves repo laws now (normalize_mac mac) n st wf e missing
                            (filed ∙ sym (normalize_mac_idem mac)),
                    )
              ]
        ]

    save_and_respond-safe :
        (clock : ℕ → Time) (msg : Message) (mac : Text) (n : Node) (w w' : World S)
        → IsWellFormed repo w.store
        → normalize_mac n.mac ≡ normalize_mac mac
        → Evolves repo w.store (repo.save (clock 1) n w.store).2
        → save_and_respond repo s clock msg n w ≡ returns w'
        → IsWellFormed repo w'.store × Evolves repo w.store w'.store
    unfolding save_and_respond
    save_and_respond-safe clock msg mac n w w' wf filed evolves h =
        let saved : World S = record w { store = (repo.save (clock 1) n w.store).2 } in
        let wf' = save-IsWellFormed repo laws (clock 1) n w.store wf in
        elim (Option-cases (repo.save (clock 1) n w.store).0) [
          | inr (e, failed) ↦
              let same : w'.store ≡ (repo.save (clock 1) n w.store).2 = ground arith in
              rw same (wf', evolves)
          | inl done ↦
              let hit : text_eq (normalize_mac n.mac) (normalize_mac mac) ≡ true =
                (text_eq_iff (normalize_mac n.mac) (normalize_mac mac)).1 filed in
              let there : repo.find_by_mac mac (repo.save (clock 1) n w.store).2
                  ≡ ok (repo.save (clock 1) n w.store).1 =
                ground (arith, laws.find_saved (clock 1) n w.store mac done, hit) in
              let later : respond repo s clock msg (repo.save (clock 1) n w.store).1 saved
                  ≡ returns w' =
                ground arith in
              let (wf'', further) =
                respond-safe clock msg mac (repo.save (clock 1) n w.store).1 saved w' wf' there
                  later in
              (
                wf'',
                Evolves-trans repo w.store (repo.save (clock 1) n w.store).2 w'.store evolves
                    further,
              )
        ]

    unchanged :
        (w w' : World S)
        → IsWellFormed repo w.store
        → returns w ≡ returns w'
        → IsWellFormed repo w'.store × Evolves repo w.store w'.store
    unchanged w w' wf h =
        let same : w'.store ≡ w.store = ground arith in
        rw same (wf, Evolves-refl repo laws w.store wf)

    handle_standard-safe :
        (clock : ℕ → Time) (msg : Message) (w w' : World S)
        → IsWellFormed repo w.store
        → handle_standard repo s clock msg w ≡ returns w'
        → IsWellFormed repo w'.store × Evolves repo w.store w'.store
    unfolding handle_standard
    handle_standard-safe clock msg w w' wf h =
        let mac = hardware_string msg.client_hw_addr in
        elim (Bool-cases (text_eq mac [])) [
          | inl no_mac ↦ unchanged w w' wf (ground arith)
          | inr given ↦
              elim (Option-cases (found_or_new repo s clock (normalize_mac mac) w.store)) [
                | inl failed ↦ unchanged w w' wf (ground arith)
                | inr (n, node) ↦
                    let (filed, evolves) = found_or_new_lem clock mac n w.store wf node in
                    save_and_respond-safe clock msg mac n w w' wf filed (evolves (clock 1))
                      (ground arith)
              ]
        ]

    -- If the handler returns, for any message in either mode, a well-formed store is well formed
    -- again, no node is lost, and no status goes back.
    pub handle_dhcp-safe :
        (clock : ℕ → Time) (msg : Option Message) (w w' : World S)
        → IsWellFormed repo w.store
        → handle_dhcp repo s clock msg w ≡ returns w'
        → IsWellFormed repo w'.store × Evolves repo w.store w'.store
    handle_dhcp-safe clock none w w' wf h = unchanged w w' wf (unfold handle_dhcp in h)
    handle_dhcp-safe clock (some msg) w w' wf h =
        elim (handle_typed msg.message_type s.proxy_mode clock msg w w' refl refl h) [
          | inl run ↦ handle_standard-safe clock msg w w' wf run
          | inr same ↦ rw same (wf, Evolves-refl repo laws w.store wf)
        ]
