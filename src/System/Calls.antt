-- ===== src/System/Calls.antt =====
-- The handlers again, as the sequences of calls that they make of the repository, the pool and the
-- connection, one atomic call at a time: a transaction of bbolt, a method under the pool's mutex, a
-- message sent. Other handlers run between two calls.
pub mod Alone
use nodefoundry.Base.{
  ℕ, ◌||◌, Option, none, some, [], if◌then◌else◌, Result, ok, err, Text, codes, text_eq, ◌++◌, ◌∷◌,
}
use nodefoundry.Model.{
  Time, Node, new_node, is_valid_mac, is_valid_status, can_transition_to, normalize_mac,
  state_discovered, state_installing,
}
use nodefoundry.Db.{NodeRepository, RepoError}
use nodefoundry.Mqtt.{StatusMessage, topic_mac, with_heartbeat}
use nodefoundry.Api.{
  RegisterNodeRequest, Response, error_response, json, one_node, nodes_path, cannot_install,
  found_node,
}
use nodefoundry.Dhcp.Ip.{hardware_string, is_unspecified}
use nodefoundry.Dhcp.Pool.{IpManager, Run, returns, ◌>>=◌}
use nodefoundry.Dhcp.Message.{
  Message, MessageType, discover, request, ResponseError, build_proxy_offer,
}
use nodefoundry.Dhcp.Server.{DhcpServer, World, build_response, with_network}

-- What a handler ends with: an HTTP response, or nothing.
pub data Outcome : Type 0 where
  answered : Response → Outcome
  handled : Outcome

-- `builds` is `buildResponse`, which calls the pool once; what follows it also reads the fields of
-- the pool that never change.
pub data Calls : Type 0 where
  done : Outcome → Calls
  finds : Text → (Result RepoError Node → Calls) → Calls
  saves : Time → Node → (Option RepoError → Node → Calls) → Calls
  updates : Time → Text → Text → (Option RepoError → Calls) → Calls
  builds : Time → Message → (Result ResponseError Message → Option IpManager → Calls) → Calls
  sends : Message → Calls → Calls

-- `RegisterNode`
unfoldable pub register_new_calls : (ℕ → Time) → Text → Text → Calls
register_new_calls clock mac ip = elim (new_node (clock 0) mac state_discovered) [
  | err _ ↦ done (answered (error_response 500 (codes "failed to create node")))
  | ok node ↦ saves (clock 1) (if text_eq ip [] then node else record node { ip = ip }) λ e saved.
      elim e [
        | some _ ↦ done (answered (error_response 500 (codes "failed to save node")))
        | none ↦ done (
            answered (record {
              status_code = 201;
              location = nodes_path ++ mac;
              body = one_node (some saved);
            }))
      ]
]

unfoldable pub register_calls : (ℕ → Time) → Option RegisterNodeRequest → Calls
unfolding register_new_calls
register_calls clock none = done (answered (error_response 400 (codes "invalid request body")))
register_calls clock (some req) =
    if is_valid_mac req.mac
    then finds (normalize_mac req.mac) (λ found. elim found [
      | ok _ ↦ done (answered (error_response 409 (codes "node already exists")))
      | err _ ↦ register_new_calls clock (normalize_mac req.mac) req.ip
    ])
    else done (answered (error_response 400 (codes "invalid MAC address format")))

-- `UpdateNode`
unfoldable pub install_calls : Time → Text → Node → Calls
install_calls now mac node =
    if text_eq node.status state_discovered
    then updates now mac state_installing (λ e. elim e [
      | some _ ↦ done (answered (error_response 500 (codes "failed to update node status")))
      | none ↦ finds mac (λ found. done (answered (json 200 (one_node (found_node found)))))
    ])
    else done (answered (error_response 400 (cannot_install node.status)))

unfoldable pub update_calls : Time → Text → Option Text → Calls
unfolding install_calls
update_calls now mac none = done (answered (error_response 400 (codes "invalid request body")))
update_calls now mac (some action) = finds mac λ found. elim found [
  | err _ ↦ done (answered (error_response 404 (codes "node not found")))
  | ok node ↦
      if text_eq action (codes "install")
      then install_calls now mac node
      else done (answered (error_response 400 (codes "unknown action")))
]

-- `onStatusMessage`
unfoldable pub apply_status_calls : Time → Time → StatusMessage → Node → Calls
apply_status_calls now saved_at msg node = elim (can_transition_to node msg.status) [
  | some _ ↦ saves saved_at (with_heartbeat now msg node) (λ e saved. done handled)
  | none ↦
      saves saved_at (with_heartbeat now msg (record node { status = msg.status }))
        (λ e saved. done handled)
]

unfoldable pub status_calls : Time → Time → Text → Option StatusMessage → Calls
unfolding apply_status_calls
status_calls now saved_at topic payload = elim (topic_mac topic) [
  | none ↦ done handled
  | some mac ↦ elim payload [
    | none ↦ done handled
    | some msg ↦
        if is_valid_status msg.status
        then finds mac (λ found. elim found [
          | err _ ↦ done handled
          | ok node ↦ apply_status_calls now saved_at msg node
        ])
        else done handled
  ]
]

-- `handleDHCP`: the second `Save`, when an address was assigned and there is a pool.
unfoldable pub persist_calls : Time → Message → Node → Option IpManager → Calls → Calls
persist_calls now resp node none rest = rest
persist_calls now resp node (some m) rest =
    if text_eq resp.your_ip [] || is_unspecified resp.your_ip
    then rest
    else saves now (with_network m resp.your_ip node) (λ e saved. rest)

unfoldable pub respond_calls : (ℕ → Time) → Message → Node → Calls
unfolding persist_calls
respond_calls clock msg node = builds (clock 2) msg λ built pool. elim built [
  | err _ ↦ done handled
  | ok resp ↦ persist_calls (clock 3) resp node pool (sends resp (done handled))
]

unfoldable pub save_and_respond_calls : (ℕ → Time) → Message → Node → Calls
unfolding respond_calls
save_and_respond_calls clock msg node =
    saves (clock 1) node
      λ e saved. elim e [ some _ ↦ done handled | none ↦ respond_calls clock msg saved ]

unfoldable pub discovered_calls : (ℕ → Time) → Message → Text → Result RepoError Node → Calls
unfolding save_and_respond_calls
discovered_calls clock msg mac (ok node) = save_and_respond_calls clock msg node
discovered_calls clock msg mac (err _) = elim (new_node (clock 0) mac state_discovered) [
  | err _ ↦ done handled
  | ok node ↦ save_and_respond_calls clock msg node
]

unfoldable pub standard_calls : (ℕ → Time) → Message → Calls
unfolding discovered_calls
standard_calls clock msg =
    let mac = hardware_string msg.client_hw_addr in
    if text_eq mac []
    then done handled
    else finds (normalize_mac mac) (discovered_calls clock msg (normalize_mac mac))

unfoldable pub proxy_calls : DhcpServer → Message → Calls
proxy_calls s msg =
    if text_eq (hardware_string msg.client_hw_addr) []
    then done handled
    else elim (build_proxy_offer s.parse_ip s.reply s.tftp_server msg) [
      | err _ ↦ done handled
      | ok resp ↦ sends resp (done handled)
    ]

unfoldable pub dhcp_calls : DhcpServer → (ℕ → Time) → Option Message → Calls
unfolding standard_calls proxy_calls
dhcp_calls s clock none = done handled
dhcp_calls s clock (some msg) =
    if s.proxy_mode
    then elim msg.message_type [ discover ↦ proxy_calls s msg | _ ↦ done handled ]
    else elim msg.message_type [
      | discover ↦ standard_calls clock msg
      | request ↦ standard_calls clock msg
      | _ ↦ done handled
    ]

module _ {S : Type 0} (repo : NodeRepository S) (s : DhcpServer) where
  -- A handler that runs with no other between its calls.
  unfoldable pub run_alone : Calls → World S → Run (Outcome × World S)
  run_alone (done o) w = returns (o, w)
  run_alone (finds mac k) w = run_alone (k (repo.find_by_mac mac w.store)) w
  run_alone (saves now n k) w =
      let saved = repo.save now n w.store in
      run_alone (k (saved.0) (saved.1)) (record w { store = saved.2 })
  run_alone (updates now mac status k) w =
      let updated = repo.update_status now mac status w.store in
      run_alone (k (updated.0)) (record w { store = updated.1 })
  run_alone (builds now msg k) w = do
    built ← build_response s now msg w.pool
    run_alone (k (built.0) (built.1)) (record w { pool = built.1 })
  run_alone (sends resp k) w = run_alone k (record w { sent = resp ∷ w.sent })
