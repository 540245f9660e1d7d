-- ===== src/Dhcp/Server/Offers.antt =====
-- What the DHCP server answers (internal/dhcp/server.go).
use nodefoundry.Base.{
  ◌≡◌, refl, ◌∙◌, none, some, Option, Result, arith, ℕ, ok, inl, inr, err, ◌+◌, ◌<◌, ◌≤◌, ◌⊎◌, Text,
  lookup,
}
use nodefoundry.Model.{Time}
use nodefoundry.Dhcp.Pool.{IpManager, returns, ip_pool_exhausted, pool_mac}
use nodefoundry.Dhcp.Message.{
  Message, request, ResponseError, failed_to_allocate, discover, set_boot_options, offer,
}
use nodefoundry.Dhcp.Pool.Histories.{allocate_ip-outcome, IsLeased}
use nodefoundry.Dhcp.Ip.{hardware_string}
use nodefoundry.Dhcp.Ip.Four.{IsBytes}
use nodefoundry.Dhcp.Pool.Consistency.{InPool, IsConsistent}
use nodefoundry.Dhcp.Server.{
  DhcpServer, assigned_ip, build_response, Ip, fill_response, set_network_options,
}
use nodefoundry.Dhcp.Server.Options.{networked, set_boot_options-fields, set_network_options-fields}

-- A REQUEST renews nothing: whatever the answer, the pool is as it was, and so is the expiry of the
-- client's lease.
pub build_response-request :
    (s : DhcpServer) (now : Time) (req : Message) (pool pool' : Option IpManager)
    (r : Result ResponseError Message)
    → req.message_type ≡ request
    → build_response s now req pool ≡ returns (r, pool')
    → pool' ≡ pool
unfolding build_response assigned_ip
build_response-request s now req none pool' r t h = ground arith
build_response-request s now req (some m) pool' r t h = ground arith

-- What `buildResponse` may return for a DISCOVER of the client `mac`, from a pool over the addresses
-- `s` to `e`: an error only when the client has no lease and every address is leased.
abbrev pub OfferOutcome :
    ℕ → ℕ → IpManager → Text → Result ResponseError Message → IpManager → Type 0
OfferOutcome s e m mac r m' =
    ((resp : Message) × (r ≡ ok resp)
      × (resp.message_type ≡ offer)
      × InPool s e resp.your_ip
      × (resp.lease_time ≡ some m.lease_time)
      × (resp.subnet_mask ≡ some m.netmask))
    ⊎ ((r ≡ err (failed_to_allocate ip_pool_exhausted))
        × (m' ≡ m)
        × (lookup m.leases mac ≡ none)
        × ((i : ℕ) → s ≤ i → i ≤ e → IsLeased m i))

offered : DhcpServer → IpManager → Message → Ip → Message
offered srv m resp ip =
    set_boot_options srv.parse_ip srv.tftp_server
      (set_network_options m (record (record resp { message_type = offer }) { your_ip = ip }))

offered-fields :
    (srv : DhcpServer) (m : IpManager) (resp : Message) (ip : Ip)
    → ((offered srv m resp ip).message_type ≡ offer)
      × ((offered srv m resp ip).your_ip ≡ ip)
      × ((offered srv m resp ip).lease_time ≡ some m.lease_time)
      × ((offered srv m resp ip).subnet_mask ≡ some m.netmask)
unfolding offered
offered-fields srv m resp ip =
    let addressed : Message = record (record resp { message_type = offer }) { your_ip = ip } in
    let (gateway, servers, networks) = set_network_options-fields m addressed in
    let (id, name, boots) = set_boot_options-fields srv (networked m gateway servers addressed) in
    rw (networks, boots) (refl, refl, refl, refl)

build_response-fill :
    (srv : DhcpServer) (now : Time) (req resp : Message) (pool : Option IpManager)
    → req.message_type ≡ discover
    → srv.reply req ≡ some resp
    → build_response srv now req pool
      ≡ fill_response srv now req pool (record resp { message_type = offer })
unfolding build_response
build_response-fill srv now req resp pool t reply = ground arith

fill_response-err :
    (srv : DhcpServer) (now : Time) (req resp : Message) (m m' : IpManager) (e : ResponseError)
    → assigned_ip srv now req m ≡ returns (err e, m')
    → fill_response srv now req (some m) resp ≡ returns (err e, some m')
unfolding fill_response
fill_response-err srv now req resp m m' e run = rw (run, fill_response) refl

fill_response-ok :
    (srv : DhcpServer) (now : Time) (req resp : Message) (m m' : IpManager) (ip : Ip)
    → assigned_ip srv now req m ≡ returns (ok ip, m')
    → fill_response srv now req (some m) (record resp { message_type = offer })
      ≡ returns (ok (offered srv m resp ip), some m')
unfolding fill_response offered
fill_response-ok srv now req resp m m' ip run = rw (run, fill_response) refl

-- A DISCOVER is answered whenever a reply can be made, the pool is consistent and ends below
-- 255.255.255.255, and the loop has a turn for each address and one more: the answer is an OFFER of
-- an address of the pool, with the pool's lease time and netmask, and else, only when the client has
-- no lease and every address of the pool is leased, an error that leaves the pool as it was. The pool is consistent again.
pub build_response-discover :
    (srv : DhcpServer) (now : Time) (req resp : Message) {s e : ℕ} {m : IpManager}
    → IsConsistent s e m
    → e < 4294967295
    → s ≤ e + 1
    → e + 1 < s + srv.fuel
    → IsBytes req.requested_ip
    → req.message_type ≡ discover
    → srv.reply req ≡ some resp
    → (r : Result ResponseError Message) × (m' : IpManager) × (build_response srv now req (some m)
        ≡ returns (r, some m'))
      × IsConsistent s e m'
      × OfferOutcome s e m (pool_mac srv.parse_mac (hardware_string req.client_hw_addr)) r m'
unfolding build_response fill_response assigned_ip
build_response-discover srv now req resp {s} {e} {m} c top order enough b t reply =
    let (r, m', run, c', outcome) =
      allocate_ip-outcome srv.parse_mac srv.fuel now (hardware_string req.client_hw_addr)
        req.requested_ip c top order enough b in
    elim outcome [
      | inl (ip, is, pool) ↦
          let (type', addr, time, mask) = offered-fields srv m resp ip in
          let assigned : assigned_ip srv now req m ≡ returns (ok ip, m') = ground arith in
          (
            ok (offered srv m resp ip),
            m',
            build_response-fill srv now req resp (some m) t reply
                ∙ fill_response-ok srv now req resp m m' ip assigned,
            c',
            inl (offered srv m resp ip, refl, type', rw addr pool, time, mask),
          )
      | inr (is, same, unknown, taken) ↦
          let full : ResponseError = failed_to_allocate ip_pool_exhausted in
          let assigned : assigned_ip srv now req m ≡ returns (err full, m') = ground arith in
          (
            err full,
            m',
            build_response-fill srv now req resp (some m) t reply
                ∙ fill_response-err srv now req (record resp { message_type = offer }) m m' full
                    assigned,
            c',
            inr (refl, same, unknown, taken),
          )
    ]
