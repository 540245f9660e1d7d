-- ===== src/Dhcp/Server/Ready.antt =====
-- The DHCP handler of internal/dhcp/server.go, where `buildResponse` returns.
use nodefoundry.Base.{
  ◌∷◌, ℕ, ◌≡◌, true, false, Bool, Bool-cases, inl, inr, some, Option, Option-cases, Result,
  Result-cases, arith, text_eq, [],
}
use nodefoundry.Model.{Time, Node, normalize_mac}
use nodefoundry.Db.{NodeRepository}
use nodefoundry.Dhcp.Ip.{hardware_string}
use nodefoundry.Dhcp.Pool.{IpManager, Run, returns}
use nodefoundry.Dhcp.Message.{
  Message, MessageType, discover, offer, request, ack, other_type, ResponseError,
}
use nodefoundry.Dhcp.Server.{
  DhcpServer, World, build_response, persist_network, respond, save_and_respond, handle_standard,
  handle_proxy_discover, handle_dhcp, found_or_new,
}

-- The handler over any pool, and on any message, for which `buildResponse` returns and leaves such a
-- pool behind.
module _ (srv : DhcpServer) (IsReady : Option IpManager → Type 0) (IsServed : Message → Type 0)
    (builds : (now : Time) (req : Message) (p : Option IpManager)
      → IsReady p
      → IsServed req
      → (r : Result ResponseError Message) × (p' : Option IpManager) × (build_response srv now req p
          ≡ returns (r, p'))
        × IsReady p')
    {S : Type 0} (repo : NodeRepository S) where
  EndsReady : Run (World S) → Type 0
  EndsReady r = (w : World S) × (r ≡ returns w) × IsReady w.pool

  persist_network-pool :
      (now : Time) (resp : Message) (n : Node) (w : World S)
      → (persist_network repo srv now resp n w).pool ≡ w.pool
  unfolding persist_network
  persist_network-pool now resp n w = ground arith

  respond-returns :
      (clock : ℕ → Time) (msg : Message) (n : Node) (w : World S)
      → IsReady w.pool
      → IsServed msg
      → EndsReady (respond repo srv clock msg n w)
  unfolding respond EndsReady
  respond-returns clock msg n w h b =
      let (r, p', run, h') = builds (clock 2) msg w.pool h b in
      elim (Result-cases r) [
        | inr (f, failed) ↦ (record w { pool = p' }, ground arith, h')
        | inl (resp, got) ↦
            let w' : World S = record w { pool = p' } in
            let saved : World S = persist_network repo srv (clock 3) resp n w' in
            (
              record saved { sent = resp ∷ saved.sent },
              ground arith,
              rw (persist_network-pool (clock 3) resp n w') h',
            )
      ]

  save_and_respond-returns :
      (clock : ℕ → Time) (msg : Message) (n : Node) (w : World S)
      → IsReady w.pool
      → IsServed msg
      → EndsReady (save_and_respond repo srv clock msg n w)
  unfolding save_and_respond EndsReady
  save_and_respond-returns clock msg n w h b =
      let first = repo.save (clock 1) n w.store in
      let saved : World S = record w { store = first.2 } in
      elim (Option-cases first.0) [
        | inr (f, failed) ↦ (saved, ground arith, h)
        | inl done ↦
            let (w', run, h') = respond-returns clock msg first.1 saved h b in
            (w', ground arith, h')
      ]

  handle_standard-returns :
      (clock : ℕ → Time) (msg : Message) (w : World S)
      → IsReady w.pool
      → IsServed msg
      → EndsReady (handle_standard repo srv clock msg w)
  unfolding handle_standard EndsReady
  handle_standard-returns clock msg w h b =
      let mac = hardware_string msg.client_hw_addr in
      elim (Bool-cases (text_eq mac [])) [
        | inl nil ↦ (w, ground arith, h)
        | inr given ↦
            elim (Option-cases (found_or_new repo srv clock (normalize_mac mac) w.store)) [
              | inl nothing ↦ (w, ground arith, h)
              | inr (n, found) ↦
                  let (w', run, h') = save_and_respond-returns clock msg n w h b in
                  (w', ground arith, h')
            ]
      ]

  handle_proxy_discover-pool :
      (msg : Message) (w : World S) → (handle_proxy_discover repo srv msg w).pool ≡ w.pool
  unfolding handle_proxy_discover
  handle_proxy_discover-pool msg w = ground arith

  pub handle_typed-returns :
      (clock : ℕ → Time) (msg : Message) (w : World S) (t : MessageType) (proxy : Bool)
      → msg.message_type ≡ t
      → srv.proxy_mode ≡ proxy
      → IsReady w.pool
      → IsServed msg
      → (w' : World S) × (handle_dhcp repo srv clock (some msg) w ≡ returns w') × IsReady w'.pool
  unfolding handle_dhcp EndsReady
  handle_typed-returns clock msg w discover true is mode h b =
      (handle_proxy_discover repo srv msg w, ground arith, rw (handle_proxy_discover-pool msg w) h)
  handle_typed-returns clock msg w discover false is mode h b =
      let (w', run, h') = handle_standard-returns clock msg w h b in (w', ground arith, h')
  handle_typed-returns clock msg w request false is mode h b =
      let (w', run, h') = handle_standard-returns clock msg w h b in (w', ground arith, h')
  handle_typed-returns clock msg w request true is mode h b = (w, ground arith, h)
  handle_typed-returns clock msg w offer p is mode h b = (w, ground arith, h)
  handle_typed-returns clock msg w ack p is mode h b = (w, ground arith, h)
  handle_typed-returns clock msg w (other_type n) p is mode h b = (w, ground arith, h)
