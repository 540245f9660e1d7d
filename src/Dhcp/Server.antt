-- ===== src/Dhcp/Server.antt =====
-- internal/dhcp/server.go: the handler of DHCP messages, over the repository and the pool. Logging is
-- left out; sending is the message that the handler hands to the connection.
pub mod Safety
pub mod Network
pub mod Options
pub mod Offers
pub mod Ready
pub mod Totality
pub mod BootFile
pub mod Samples
mod Tests
use nodefoundry.Base.{
  ℕ, ◌*◌, Bool, ◌||◌, Option, none, some, List, [], ◌∷◌, ◌++◌, if◌then◌else◌, Result, ok, err, Text,
  text_eq, ℤ, pos,
}
use nodefoundry.Model.{Time, Node, new_node, normalize_mac, state_discovered}
use nodefoundry.Db.{NodeRepository}
use nodefoundry.Dhcp.Ip.{Ip, is_unspecified, ip_string, mask_string, hardware_string}
use nodefoundry.Dhcp.Pool.{IpManager, Run, returns, ◌>>=◌, allocate_ip, get_lease}
use nodefoundry.Dhcp.Message.{
  MessageType, discover, offer, request, ack, Message, ResponseError, unexpected_message_type,
  no_reply, failed_to_allocate, failed_to_get_lease, set_boot_options, build_proxy_offer,
}

-- What the server calls of the libraries, and what stays fixed while it runs: `net.ParseIP`,
-- `net.ParseMAC`, `NewReplyFromRequest`, the turns that the pool's loop may take, and the settings.
pub record DhcpServer : Type 0 where
  pub parse_ip : Text → Ip
  pub parse_mac : Text → Option (List ℕ)
  pub reply : Message → Option Message
  pub fuel : ℕ
  pub tftp_server : Text
  pub proxy_mode : Bool

-- The store, the pool (`none` is a nil `ipManager`), and the messages sent, the last first.
pub record World (S : Type 0) : Type 0 where
  pub store : S
  pub pool : Option IpManager
  pub sent : List Message

-- The time of a lease when no pool is set: 24 hours.
abbrev pub default_lease_time : ℤ
default_lease_time = pos 86400000000000

-- The network options of `buildResponse` when a pool is set.
unfoldable pub set_network_options : IpManager → Message → Message
set_network_options m resp =
    let masked = record resp { subnet_mask = some m.netmask } in
    let routed =
      if text_eq m.gateway [] then masked else record masked { router = some m.gateway } in
    let named : Message = elim m.dns [
      | [] ↦ routed
      | d ∷ ds ↦ record routed { dns = some (d ∷ ds) }
    ] in
    record named { lease_time = some m.lease_time }

-- The address that `buildResponse` assigns from the pool: a new one for DISCOVER, the leased one
-- for REQUEST.
unfoldable pub assigned_ip :
    DhcpServer → Time → Message → IpManager → Run (Result ResponseError Ip × IpManager)
assigned_ip s now req m = elim req.message_type [
  | discover ↦ do
    allocated ←
        allocate_ip s.parse_mac s.fuel now (hardware_string req.client_hw_addr) req.requested_ip m
    let result : Result ResponseError Ip = elim (allocated.0) [
      | err e ↦ err (failed_to_allocate e)
      | ok ip ↦ ok ip
    ]
    returns (result, allocated.1)
  | _ ↦
      let result : Result ResponseError Ip =
        elim (get_lease s.parse_mac now (hardware_string req.client_hw_addr) m) [
          | err e ↦ err (failed_to_get_lease e)
          | ok ip ↦ ok ip
        ] in
      returns (result, m)
]

-- The body of `buildResponse` after the message type is set.
unfoldable pub fill_response :
    DhcpServer
    → Time
    → Message
    → Option IpManager
    → Message
    → Run (Result ResponseError Message × Option IpManager)
unfolding set_network_options
fill_response s now req none resp =
    let addressed = record resp {
      your_ip = if text_eq req.requested_ip [] then req.client_ip else req.requested_ip;
      lease_time = some default_lease_time;
    } in
    returns (ok (set_boot_options s.parse_ip s.tftp_server addressed), none)
fill_response s now req (some m) resp = do
  assigned ← assigned_ip s now req m
  elim (assigned.0) [
    | err e ↦ returns (err e, some (assigned.1))
    | ok ip ↦ returns (
      ok (
          set_boot_options s.parse_ip s.tftp_server
            (set_network_options m (record resp { your_ip = ip }))),
      some (assigned.1),
    )
  ]

-- The `switch` of `buildResponse`.
abbrev pub response_type : MessageType → Result ResponseError MessageType
response_type discover = ok offer
response_type request = ok ack
response_type t = err (unexpected_message_type t)

unfoldable pub build_response :
    DhcpServer
    → Time
    → Message
    → Option IpManager
    → Run (Result ResponseError Message × Option IpManager)
unfolding fill_response
build_response s now req pool = elim (response_type req.message_type) [
  | err e ↦ returns (err e, pool)
  | ok type' ↦ elim (s.reply req) [
    | none ↦ returns (err no_reply, pool)
    | some resp ↦ fill_response s now req pool (record resp { message_type = type' })
  ]
]

-- The loop that joins the DNS servers with commas.
unfoldable pub join_dns : List Ip → Text
join_dns [] = []
join_dns (d ∷ []) = ip_string d
join_dns (d ∷ e ∷ rest) = ip_string d ++ b',' ∷ join_dns (e ∷ rest)

-- The network configuration that `handleStandard` writes into the node.
unfoldable pub with_network : IpManager → Ip → Node → Node
unfolding join_dns
with_network m ip node =
    let addressed = record node { ip = ip_string ip } in
    let masked =
      if text_eq m.netmask []
      then addressed
      else record addressed { netmask = mask_string m.netmask } in
    let routed =
      if text_eq m.gateway [] then masked else record masked { gateway = ip_string m.gateway } in
    elim m.dns [ [] ↦ routed | d ∷ ds ↦ record routed { dns = join_dns (d ∷ ds) } ]

module _ {S : Type 0} (repo : NodeRepository S) (s : DhcpServer) where
  -- "If an address was assigned and there is a pool": the second `Save`, whose error is only logged.
  unfoldable pub persist_network : Time → Message → Node → World S → World S
  unfolding with_network
  persist_network now resp node w = elim w.pool [
    | none ↦ w
    | some m ↦
        if text_eq resp.your_ip [] || is_unspecified resp.your_ip
        then w
        else record w { store = (repo.save now (with_network m resp.your_ip node) w.store).2 }
  ]

  -- From `buildResponse` on.
  unfoldable pub respond : (ℕ → Time) → Message → Node → World S → Run (World S)
  unfolding persist_network
  respond clock msg node w = do
    built ← build_response s (clock 2) msg w.pool
    let w' = record w { pool = built.1 }
    elim (built.0) [
      | err e ↦ returns w'
      | ok resp ↦
          let saved = persist_network (clock 3) resp node w' in
          returns (record saved { sent = resp ∷ saved.sent })
    ]

  -- The node that `handleStandard` finds or creates.
  unfoldable pub found_or_new : (ℕ → Time) → Text → S → Option Node
  found_or_new clock mac store = elim (repo.find_by_mac mac store) [
    | ok node ↦ some node
    | err _ ↦ elim (new_node (clock 0) mac state_discovered) [ err _ ↦ none | ok node ↦ some node ]
  ]

  -- `handleStandard` from the first `Save` on.
  unfoldable pub save_and_respond : (ℕ → Time) → Message → Node → World S → Run (World S)
  save_and_respond clock msg node w =
      let first = repo.save (clock 1) node w.store in
      let saved = record w { store = first.2 } in
      let later = respond clock msg (first.1) saved in
      elim (first.0) [ some _ ↦ returns saved | none ↦ later ]

  -- `handleStandard`; `clock n` is the n-th reading of `time.Now`.
  unfoldable pub handle_standard : (ℕ → Time) → Message → World S → Run (World S)
  unfolding found_or_new save_and_respond
  handle_standard clock msg w =
      if text_eq (hardware_string msg.client_hw_addr) []
      then returns w
      else elim (found_or_new clock (normalize_mac (hardware_string msg.client_hw_addr)) w.store) [
        | none ↦ returns w
        | some node ↦ save_and_respond clock msg node w
      ]

  -- `handleProxyDiscover`
  unfoldable pub handle_proxy_discover : Message → World S → World S
  handle_proxy_discover msg w =
      if text_eq (hardware_string msg.client_hw_addr) []
      then w
      else elim (build_proxy_offer s.parse_ip s.reply s.tftp_server msg) [
        | err _ ↦ w
        | ok resp ↦ record w { sent = resp ∷ w.sent }
      ]

  -- `handleDHCP`; `none` is a nil message.
  unfoldable pub handle_dhcp : (ℕ → Time) → Option Message → World S → Run (World S)
  unfolding handle_standard handle_proxy_discover
  handle_dhcp clock none w = returns w
  handle_dhcp clock (some msg) w =
      if s.proxy_mode
      then elim msg.message_type [
        | discover ↦ returns (handle_proxy_discover msg w)
        | _ ↦ returns w
      ]
      else elim msg.message_type [
        | discover ↦ handle_standard clock msg w
        | request ↦ handle_standard clock msg w
        | _ ↦ returns w
      ]
