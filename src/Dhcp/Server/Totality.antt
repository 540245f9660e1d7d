-- ===== src/Dhcp/Server/Totality.antt =====
-- The DHCP handler of internal/dhcp/server.go returns, whatever message arrives.
use nodefoundry.Base.{
  ℕ, ◌+◌, ◌≤◌, ◌<◌, ◌≡◌, refl, inl, inr, some, none, Option, Option-cases, Result, ok, err,
  Result-cases, arith,
}
use nodefoundry.Model.{Time}
use nodefoundry.Db.{NodeRepository}
use nodefoundry.Dhcp.Ip.{Ip, hardware_string}
use nodefoundry.Dhcp.Ip.Four.{IsBytes}
use nodefoundry.Dhcp.Pool.{IpManager, returns, get_lease}
use nodefoundry.Dhcp.Pool.Consistency.{IsConsistent}
use nodefoundry.Dhcp.Pool.Histories.{allocate_ip-outcome}
use nodefoundry.Dhcp.Message.{
  Message, MessageType, discover, offer, request, ack, other_type, set_boot_options, ResponseError,
  no_reply, failed_to_allocate, failed_to_get_lease,
}
use nodefoundry.Dhcp.Server.Ready.{handle_typed-returns}
use nodefoundry.Dhcp.Server.{
  DhcpServer, World, assigned_ip, fill_response, response_type, set_network_options, build_response,
  handle_dhcp,
}

-- The pool is there and consistent.
abbrev PoolReady : ℕ → ℕ → Option IpManager → Type 0
PoolReady s e p = (m : IpManager) × (p ≡ some m) × IsConsistent s e m

-- The pool of a world is there and consistent.
abbrev pub HasPool : {S : Type 0} → ℕ → ℕ → World S → Type 0
HasPool s e w = PoolReady s e w.pool

module _ (srv : DhcpServer) {s e : ℕ} (top : e < 4294967295) (order : s ≤ e + 1)
    (enough : e + 1 < s + srv.fuel) where
  leased : Time → Message → IpManager → Result ResponseError Ip
  leased now req m = elim (get_lease srv.parse_mac now (hardware_string req.client_hw_addr) m) [
    | err e ↦ err (failed_to_get_lease e)
    | ok ip ↦ ok ip
  ]

  assigned_ip-returns :
      (now : Time) (req : Message) (m : IpManager) (t : MessageType)
      → req.message_type ≡ t
      → IsConsistent s e m
      → IsBytes req.requested_ip
      → (r : Result ResponseError Ip) × (m' : IpManager) × (assigned_ip srv now req m
          ≡ returns (r, m'))
        × IsConsistent s e m'
  unfolding assigned_ip leased
  assigned_ip-returns now req m discover is c b =
      let (r, m', run, c', _) =
        allocate_ip-outcome srv.parse_mac srv.fuel now (hardware_string req.client_hw_addr)
          req.requested_ip c top order enough b in
      elim (Result-cases r) [
        | inl (ip, got) ↦ (ok ip, m', ground arith, c')
        | inr (f, failed) ↦ (err (failed_to_allocate f), m', ground arith, c')
      ]
  assigned_ip-returns now req m offer is c b = (leased now req m, m, ground arith, c)
  assigned_ip-returns now req m request is c b = (leased now req m, m, ground arith, c)
  assigned_ip-returns now req m ack is c b = (leased now req m, m, ground arith, c)
  assigned_ip-returns now req m (other_type n) is c b = (leased now req m, m, ground arith, c)

  fill_response-returns :
      (now : Time) (req resp : Message) (m : IpManager)
      → IsConsistent s e m
      → IsBytes req.requested_ip
      → (r : Result ResponseError Message) × (m' : IpManager) × (fill_response srv now req
            (some m)
            resp
          ≡ returns (r, some m'))
        × IsConsistent s e m'
  unfolding fill_response
  fill_response-returns now req resp m c b =
      let (r, m', run, c') = assigned_ip-returns now req m req.message_type refl c b in
      elim (Result-cases r) [
        | inr (f, failed) ↦ (err f, m', ground arith, c')
        | inl (ip, got) ↦ (
          ok (
              set_boot_options srv.parse_ip srv.tftp_server
                (set_network_options m (record resp { your_ip = ip }))),
          m',
          ground arith,
          c',
        )
      ]

  pub build_response-returns :
      (now : Time) (req : Message) (m : IpManager)
      → IsConsistent s e m
      → IsBytes req.requested_ip
      → (r : Result ResponseError Message) × (m' : IpManager) × (build_response srv now req (some m)
          ≡ returns (r, some m'))
        × IsConsistent s e m'
  unfolding build_response
  build_response-returns now req m c b = elim (Result-cases (response_type req.message_type)) [
    | inr (f, refused) ↦ (err f, m, ground arith, c)
    | inl (type', kind) ↦ elim (Option-cases (srv.reply req)) [
      | inl nothing ↦ (err no_reply, m, ground arith, c)
      | inr (resp, reply) ↦
          let (r, m', run, c') =
            fill_response-returns now req (record resp { message_type = type' }) m c b in
          (r, m', ground arith, c')
    ]
  ]

module _ (srv : DhcpServer) {S : Type 0} (repo : NodeRepository S) (clock : ℕ → Time)
    (msg : Message) (w : World S) where
  -- With a consistent pool that ends below 255.255.255.255, a turn of the loop for each address and
  -- one more, and a requested address of bytes, the handler returns on every message and in both
  -- modes, whatever the repository does, and the pool is consistent again.
  pub handle_dhcp-returns :
      {s e : ℕ}
      → e < 4294967295
      → s ≤ e + 1
      → e + 1 < s + srv.fuel
      → HasPool s e w
      → IsBytes msg.requested_ip
      → (w' : World S) × (handle_dhcp repo srv clock (some msg) w ≡ returns w') × HasPool s e w'
  handle_dhcp-returns {s} {e} top order enough h b =
      handle_typed-returns srv (PoolReady s e) (λ req. IsBytes req.requested_ip)
        (λ now req p (m, is, c) bytes.
          let (r, m', run, c') = build_response-returns srv top order enough now req m c bytes in
          (r, some m', rw is run, (m', refl, c')))
        repo clock msg w msg.message_type srv.proxy_mode refl refl h b

  poolless_fills :
      (now : Time) (req resp : Message)
      → (resp' : Message) × (fill_response srv now req none resp ≡ returns (ok resp', none))
  unfolding fill_response
  poolless_fills now req resp = (_, refl)

  poolless_builds :
      (now : Time) (req : Message) (p : Option IpManager)
      → p ≡ none
      → (r : Result ResponseError Message) × (p' : Option IpManager) × (build_response srv now req p
          ≡ returns (r, p'))
        × (p' ≡ none)
  unfolding build_response
  poolless_builds now req p nil = elim (Result-cases (response_type req.message_type)) [
    | inr (f, refused) ↦ (err f, none, ground arith, refl)
    | inl (type', kind) ↦ elim (Option-cases (srv.reply req)) [
      | inl nothing ↦ (err no_reply, none, ground arith, refl)
      | inr (resp, reply) ↦
          let (resp', filled) = poolless_fills now req (record resp { message_type = type' }) in
          (ok resp', none, ground arith, refl)
    ]
  ]

  -- Without a pool too, the handler returns on every message and in both modes, whatever the
  -- repository does.
  pub handle_dhcp-poolless :
      w.pool ≡ none
      → (w' : World S) × (handle_dhcp repo srv clock (some msg) w ≡ returns w') × (w'.pool ≡ none)
  handle_dhcp-poolless nil =
      handle_typed-returns srv (λ p. p ≡ none) (λ req. Unit)
        (λ now req p is served. poolless_builds now req p is) repo clock msg w msg.message_type
        srv.proxy_mode refl refl nil tt
