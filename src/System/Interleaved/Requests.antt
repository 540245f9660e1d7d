-- ===== src/System/Interleaved/Requests.antt =====
-- What the handlers ask of the pool: the address of a DHCP message that came from a socket.
use nodefoundry.Base.{
  Bool, true, false, ◌||◌, if◌then◌else◌, Bool-cases, Option-cases, Result-cases, text_eq, codes,
  ◌≡◌, ℕ, refl, Option, some, none, [], Result, ok, Text, err, inl, inr,
}
use nodefoundry.Model.{
  Node, Time, new_node, state_discovered, is_valid_mac, normalize_mac, can_transition_to,
  is_valid_status,
}
use nodefoundry.Db.{RepoError}
use nodefoundry.Mqtt.{StatusMessage, topic_mac}
use nodefoundry.Api.{RegisterNodeRequest}
use nodefoundry.Dhcp.Ip.{hardware_string, is_unspecified}
use nodefoundry.Dhcp.Ip.Four.{IsBytes}
use nodefoundry.Dhcp.Pool.{IpManager}
use nodefoundry.Dhcp.Message.{
  Message, MessageType, ResponseError, build_proxy_offer, discover, request, offer, ack, other_type,
}
use nodefoundry.Dhcp.Server.{DhcpServer}
use nodefoundry.System.Calls.{
  Calls, done, finds, saves, updates, builds, sends, register_new_calls, register_calls,
  update_calls, install_calls, status_calls, apply_status_calls, persist_calls,
  save_and_respond_calls, respond_calls, discovered_calls, standard_calls, proxy_calls, dhcp_calls,
  handled,
}
use nodefoundry.System.Interleaved.{IsHandler, registers, installs, reports, serves}

-- Every message that the handler may still answer requests an address of bytes.
abbrev pub AsksBytes : Calls → Type 0
AsksBytes (done o) = Unit
AsksBytes (finds mac k) = (r : Result RepoError Node) → AsksBytes (k r)
AsksBytes (saves now n k) = (e : Option RepoError) (n' : Node) → AsksBytes (k e n')
AsksBytes (updates now mac status k) = (e : Option RepoError) → AsksBytes (k e)
AsksBytes (builds now msg k) =
    IsBytes msg.requested_ip
    × ((r : Result ResponseError Message) (p : Option IpManager) → AsksBytes (k r p))
AsksBytes (sends resp k) = AsksBytes k

if-AsksBytes :
    (b : Bool) (c c' : Calls) → AsksBytes c → AsksBytes c' → AsksBytes (if b then c else c')
if-AsksBytes true c c' h h' = h
if-AsksBytes false c c' h h' = h'

register_new_calls-AsksBytes :
    (clock : ℕ → Time) (mac ip : Text) → AsksBytes (register_new_calls clock mac ip)
unfolding register_new_calls
register_new_calls-AsksBytes clock mac ip =
    elim (Result-cases (new_node (clock 0) mac state_discovered)) [
      | inr (e, failed) ↦ rw (failed, register_new_calls) tt
      | inl (n, made) ↦
          rw (made, register_new_calls)
            (λ e n'. elim (Option-cases e) [ inl is ↦ rw is tt | inr (x, is) ↦ rw is tt ])
    ]

register_calls-AsksBytes :
    (clock : ℕ → Time) (req : Option RegisterNodeRequest) → AsksBytes (register_calls clock req)
unfolding register_calls
register_calls-AsksBytes clock none = tt
register_calls-AsksBytes clock (some req) = elim (Bool-cases (is_valid_mac req.mac)) [
  | inr bad ↦ rw bad tt
  | inl good ↦ rw good (λ found. elim (Result-cases found) [
    | inl (n, is) ↦ rw is tt
    | inr (e, is) ↦ rw is (register_new_calls-AsksBytes clock (normalize_mac req.mac) req.ip)
  ])
]

install_calls-AsksBytes :
    (now : Time) (mac : Text) (node : Node) → AsksBytes (install_calls now mac node)
unfolding install_calls
install_calls-AsksBytes now mac node =
    if-AsksBytes (text_eq node.status state_discovered) _ _
      (λ e. elim (Option-cases e) [ inl is ↦ rw is (λ found. tt) | inr (x, is) ↦ rw is tt ]) tt

update_calls-AsksBytes :
    (now : Time) (mac : Text) (action : Option Text) → AsksBytes (update_calls now mac action)
unfolding update_calls
update_calls-AsksBytes now mac none = tt
update_calls-AsksBytes now mac (some action) = λ found. elim (Result-cases found) [
  | inr (e, is) ↦ rw is tt
  | inl (n, is) ↦
      rw is
        (if-AsksBytes (text_eq action (codes "install")) _ _ (install_calls-AsksBytes now mac n) tt)
]

apply_status_calls-AsksBytes :
    (now saved_at : Time) (msg : StatusMessage) (node : Node)
    → AsksBytes (apply_status_calls now saved_at msg node)
unfolding apply_status_calls
apply_status_calls-AsksBytes now saved_at msg node =
    elim (Option-cases (can_transition_to node msg.status)) [
      | inl fine ↦ rw (fine, apply_status_calls) (λ e n'. tt)
      | inr (e, refused) ↦ rw (refused, apply_status_calls) (λ f n'. tt)
    ]

status_calls-AsksBytes :
    (now saved_at : Time) (topic : Text) (payload : Option StatusMessage)
    → AsksBytes (status_calls now saved_at topic payload)
unfolding status_calls
status_calls-AsksBytes now saved_at topic none = elim (Option-cases (topic_mac topic)) [
  | inl bad ↦ rw (bad, status_calls) tt
  | inr (mac, good) ↦ rw (good, status_calls) tt
]
status_calls-AsksBytes now saved_at topic (some msg) = elim (Option-cases (topic_mac topic)) [
  | inl bad ↦ rw (bad, status_calls) tt
  | inr (mac, good) ↦
      rw (good, status_calls)
        (if-AsksBytes (is_valid_status msg.status) _ _
          (λ found. elim (Result-cases found) [
            | inr (e, is) ↦ rw is tt
            | inl (n, is) ↦ rw is (apply_status_calls-AsksBytes now saved_at msg n)
          ])
          tt)
]

persist_calls-AsksBytes :
    (now : Time) (resp : Message) (node : Node) (p : Option IpManager) (rest : Calls)
    → AsksBytes rest
    → AsksBytes (persist_calls now resp node p rest)
unfolding persist_calls
persist_calls-AsksBytes now resp node none rest h = h
persist_calls-AsksBytes now resp node (some m) rest h =
    if-AsksBytes (text_eq resp.your_ip [] || is_unspecified resp.your_ip) _ _ h (λ e n'. h)

save_and_respond_calls-AsksBytes :
    (clock : ℕ → Time) (msg : Message) (node : Node)
    → IsBytes msg.requested_ip
    → AsksBytes (save_and_respond_calls clock msg node)
unfolding save_and_respond_calls respond_calls
save_and_respond_calls-AsksBytes clock msg node b = λ e n'. elim (Option-cases e) [
  | inr (x, is) ↦ rw is tt
  | inl is ↦ rw is (
    b,
    λ r p. elim (Result-cases r) [
      | inr (f, failed) ↦ rw failed tt
      | inl (resp, got) ↦
          rw got (persist_calls-AsksBytes (clock 3) resp n' p (sends resp (done handled)) tt)
    ],
  )
]

discovered_calls-AsksBytes :
    (clock : ℕ → Time) (msg : Message) (mac : Text) (found : Result RepoError Node)
    → IsBytes msg.requested_ip
    → AsksBytes (discovered_calls clock msg mac found)
unfolding discovered_calls
discovered_calls-AsksBytes clock msg mac (ok n) b = save_and_respond_calls-AsksBytes clock msg n b
discovered_calls-AsksBytes clock msg mac (err e) b =
    elim (Result-cases (new_node (clock 0) mac state_discovered)) [
      | inr (f, failed) ↦ rw (failed, discovered_calls) tt
      | inl (n, made) ↦ rw (made, discovered_calls) (save_and_respond_calls-AsksBytes clock msg n b)
    ]

standard_calls-AsksBytes :
    (clock : ℕ → Time) (msg : Message)
    → IsBytes msg.requested_ip
    → AsksBytes (standard_calls clock msg)
unfolding standard_calls
standard_calls-AsksBytes clock msg b =
    if-AsksBytes (text_eq (hardware_string msg.client_hw_addr) []) _ _ tt (λ found.
      discovered_calls-AsksBytes clock msg (normalize_mac (hardware_string msg.client_hw_addr))
        found b)

proxy_calls-AsksBytes : (srv : DhcpServer) (msg : Message) → AsksBytes (proxy_calls srv msg)
unfolding proxy_calls
proxy_calls-AsksBytes srv msg =
    if-AsksBytes (text_eq (hardware_string msg.client_hw_addr) []) _ _ tt
      (elim (Result-cases (build_proxy_offer srv.parse_ip srv.reply srv.tftp_server msg)) [
        | inr (e, failed) ↦ rw (failed, proxy_calls) tt
        | inl (resp, made) ↦ rw (made, proxy_calls) tt
      ])

dhcp_calls-AsksBytes :
    (srv : DhcpServer) (clock : ℕ → Time) (msg : Message) (t : MessageType)
    → msg.message_type ≡ t
    → IsBytes msg.requested_ip
    → AsksBytes (dhcp_calls srv clock (some msg))
unfolding dhcp_calls
dhcp_calls-AsksBytes srv clock msg discover is b =
    rw (is, dhcp_calls)
      (if-AsksBytes srv.proxy_mode _ _ (proxy_calls-AsksBytes srv msg)
        (standard_calls-AsksBytes clock msg b))
dhcp_calls-AsksBytes srv clock msg request is b =
    rw (is, dhcp_calls) (if-AsksBytes srv.proxy_mode _ _ tt (standard_calls-AsksBytes clock msg b))
dhcp_calls-AsksBytes srv clock msg offer is b =
    rw (is, dhcp_calls) (if-AsksBytes srv.proxy_mode _ _ tt tt)
dhcp_calls-AsksBytes srv clock msg ack is b =
    rw (is, dhcp_calls) (if-AsksBytes srv.proxy_mode _ _ tt tt)
dhcp_calls-AsksBytes srv clock msg (other_type x) is b =
    rw (is, dhcp_calls) (if-AsksBytes srv.proxy_mode _ _ tt tt)

pub IsHandler-AsksBytes : {srv : DhcpServer} {c : Calls} → IsHandler srv c → AsksBytes c
IsHandler-AsksBytes (registers clock req is) = rw is (register_calls-AsksBytes clock req)
IsHandler-AsksBytes (installs now mac action is) = rw is (update_calls-AsksBytes now mac action)
IsHandler-AsksBytes (reports now saved_at topic payload is) =
    rw is (status_calls-AsksBytes now saved_at topic payload)
IsHandler-AsksBytes {srv} (serves clock msg bytes is) =
    rw is (dhcp_calls-AsksBytes srv clock msg msg.message_type refl bytes)
