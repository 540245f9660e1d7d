-- ===== src/System/Calls/Alone.antt =====
-- A handler that runs with no other handler between its calls does what the function of its component
-- says: the sequences of calls are faithful to the handlers.
use nodefoundry.Base.{
  ◌∷◌, ℕ, ◌≡◌, refl, Bool-cases, Option-cases, Result-cases, inl, inr, Option, none, some, Text,
  text_eq, codes, arith,
}
use nodefoundry.Model.{
  Time, Node, new_node, is_valid_mac, normalize_mac, is_valid_status, state_discovered,
}
use nodefoundry.Db.{NodeRepository}
use nodefoundry.Mqtt.{StatusMessage, topic_mac, apply_status, handle_status, on_status_message}
use nodefoundry.Api.{
  RegisterNodeRequest, Response, register_new, register_node, install, update_node,
}
use nodefoundry.Dhcp.Ip.{hardware_string}
use nodefoundry.Dhcp.Pool.{Run, returns, Run-cases, ◌>>=◌}
use nodefoundry.Dhcp.Message.{Message}
use nodefoundry.Dhcp.Server.{
  DhcpServer, World, build_response, persist_network, respond, found_or_new, save_and_respond,
  handle_standard, handle_proxy_discover, handle_dhcp,
}
use nodefoundry.System.Calls.{
  Outcome, answered, handled, done, sends, register_new_calls, register_calls, install_calls,
  update_calls, apply_status_calls, status_calls, persist_calls, respond_calls,
  save_and_respond_calls, discovered_calls, standard_calls, proxy_calls, dhcp_calls, run_alone,
}

module _ {S : Type 0} (repo : NodeRepository S) (s : DhcpServer) where
  abbrev pub answers : World S → Response × S → Run (Outcome × World S)
  answers w (resp, store) = returns (answered resp, record w { store = store })

  register_new_calls-alone :
      (clock : ℕ → Time) (mac ip : Text) (w : World S)
      → run_alone repo s (register_new_calls clock mac ip) w
        ≡ answers w (register_new repo clock mac ip w.store)
  unfolding run_alone register_new_calls register_new
  register_new_calls-alone clock mac ip w =
      elim (Result-cases (new_node (clock 0) mac state_discovered)) [
        | inr (e, failed) ↦ ground arith
        | inl (n, made) ↦ ground arith
      ]

  register_calls-alone :
      (clock : ℕ → Time) (req : Option RegisterNodeRequest) (w : World S)
      → run_alone repo s (register_calls clock req) w
        ≡ answers w (register_node repo clock req w.store)
  unfolding run_alone register_calls register_node
  register_calls-alone clock none w = refl
  register_calls-alone clock (some req) w = elim (Bool-cases (is_valid_mac req.mac)) [
    | inr bad ↦ rw bad refl
    | inl good ↦ elim (Result-cases (repo.find_by_mac (normalize_mac req.mac) w.store)) [
      | inl (n, there) ↦ ground (arith, good, there)
      | inr (e, missing) ↦
          ground (arith, register_new_calls-alone clock (normalize_mac req.mac) req.ip w)
    ]
  ]

  install_calls-alone :
      (now : Time) (mac : Text) (node : Node) (w : World S)
      → run_alone repo s (install_calls now mac node) w
        ≡ answers w (install repo now mac node w.store)
  unfolding run_alone install_calls install
  install_calls-alone now mac node w = ground arith

  update_calls-alone :
      (now : Time) (mac : Text) (action : Option Text) (w : World S)
      → run_alone repo s (update_calls now mac action) w
        ≡ answers w (update_node repo now mac action w.store)
  unfolding run_alone update_calls update_node
  update_calls-alone now mac none w = refl
  update_calls-alone now mac (some action) w = elim (Result-cases (repo.find_by_mac mac w.store)) [
    | inr (e, missing) ↦ ground arith
    | inl (n, there) ↦ elim (Bool-cases (text_eq action (codes "install"))) [
      | inl act ↦ ground (arith, install_calls-alone now mac n w)
      | inr other ↦ ground arith
    ]
  ]

  abbrev pub stores : World S → S → Run (Outcome × World S)
  stores w store = returns (handled, record w { store = store })

  apply_status_calls-alone :
      (now saved_at : Time) (msg : StatusMessage) (node : Node) (w : World S)
      → run_alone repo s (apply_status_calls now saved_at msg node) w
        ≡ stores w (apply_status repo now saved_at msg node w.store)
  unfolding run_alone apply_status_calls apply_status
  apply_status_calls-alone now saved_at msg node w = ground arith

  status_calls-alone :
      {Payload : Type 0} (unmarshal : Payload → Option StatusMessage) (now saved_at : Time)
      (topic : Text) (payload : Payload) (w : World S)
      → run_alone repo s (status_calls now saved_at topic (unmarshal payload)) w
        ≡ stores w (on_status_message repo unmarshal now saved_at topic payload w.store)
  unfolding run_alone status_calls on_status_message handle_status
  status_calls-alone unmarshal now saved_at topic payload w =
      elim (Option-cases (topic_mac topic)) [
        | inl bad ↦ ground arith
        | inr (mac, good) ↦ elim (Option-cases (unmarshal payload)) [
          | inl bad ↦ ground arith
          | inr (msg, read) ↦ elim (Bool-cases (is_valid_status msg.status)) [
            | inr bad ↦ ground arith
            | inl valid ↦ elim (Result-cases (repo.find_by_mac mac w.store)) [
              | inr (e, missing) ↦ ground arith
              | inl (n, there) ↦ ground (arith, apply_status_calls-alone now saved_at msg n w)
            ]
          ]
        ]
      ]

  abbrev pub ends : Run (World S) → Run (Outcome × World S)
  ends r = r >>= λ w. returns (handled, w)

  persist_calls-alone :
      (now : Time) (resp : Message) (node : Node) (w : World S)
      → run_alone repo s (persist_calls now resp node w.pool (sends resp (done handled))) w ≡ (
          let saved = persist_network repo s now resp node w in
          returns (handled, record saved { sent = resp ∷ saved.sent }))
  unfolding run_alone persist_calls persist_network
  persist_calls-alone now resp node w = ground arith

  respond_calls-alone :
      (clock : ℕ → Time) (msg : Message) (node : Node) (w : World S)
      → run_alone repo s (respond_calls clock msg node) w ≡ ends (respond repo s clock msg node w)
  unfolding run_alone respond_calls respond
  respond_calls-alone clock msg node w = elim (Run-cases (build_response s (clock 2) msg w.pool)) [
    | inr (inl panicked) ↦ ground arith
    | inr (inr endless) ↦ ground arith
    | inl (built, run) ↦ elim (Result-cases built.0) [
      | inr (e, failed) ↦ ground arith
      | inl (resp, made) ↦
          ground (arith, persist_calls-alone (clock 3) resp node (record w { pool = built.1 }))
    ]
  ]

  save_and_respond_calls-alone :
      (clock : ℕ → Time) (msg : Message) (node : Node) (w : World S)
      → run_alone repo s (save_and_respond_calls clock msg node) w
        ≡ ends (save_and_respond repo s clock msg node w)
  unfolding run_alone save_and_respond_calls save_and_respond
  save_and_respond_calls-alone clock msg node w = ground (
    arith,
    respond_calls-alone clock msg (repo.save (clock 1) node w.store).1
        (record w { store = (repo.save (clock 1) node w.store).2 }),
  )

  discovered_calls-alone :
      (clock : ℕ → Time) (msg : Message) (mac : Text) (w : World S)
      → run_alone repo s (discovered_calls clock msg mac (repo.find_by_mac mac w.store)) w
        ≡ (elim (found_or_new repo s clock mac w.store) [
          | none ↦ returns (handled, w)
          | some node ↦ ends (save_and_respond repo s clock msg node w)
        ])
  unfolding run_alone discovered_calls found_or_new
  discovered_calls-alone clock msg mac w = elim (Result-cases (repo.find_by_mac mac w.store)) [
    | inl (n, there) ↦ ground (arith, save_and_respond_calls-alone clock msg n w)
    | inr (e, missing) ↦ elim (Result-cases (new_node (clock 0) mac state_discovered)) [
      | inl (n, made) ↦ ground (arith, save_and_respond_calls-alone clock msg n w)
      | inr (f, failed) ↦ ground arith
    ]
  ]

  standard_calls-alone :
      (clock : ℕ → Time) (msg : Message) (w : World S)
      → run_alone repo s (standard_calls clock msg) w ≡ ends (handle_standard repo s clock msg w)
  unfolding run_alone standard_calls handle_standard
  standard_calls-alone clock msg w = ground (
    arith,
    discovered_calls-alone clock msg (normalize_mac (hardware_string msg.client_hw_addr)) w,
  )

  proxy_calls-alone :
      (msg : Message) (w : World S)
      → run_alone repo s (proxy_calls s msg) w
        ≡ returns (handled, handle_proxy_discover repo s msg w)
  unfolding run_alone proxy_calls handle_proxy_discover
  proxy_calls-alone msg w = ground arith

  dhcp_calls-alone :
      (clock : ℕ → Time) (msg : Option Message) (w : World S)
      → run_alone repo s (dhcp_calls s clock msg) w ≡ ends (handle_dhcp repo s clock msg w)
  unfolding run_alone dhcp_calls handle_dhcp
  dhcp_calls-alone clock none w = refl
  dhcp_calls-alone clock (some msg) w =
      ground (arith, proxy_calls-alone msg w, standard_calls-alone clock msg w)

  -- Each handler, run with no other handler between its calls, ends as the function of its component
  -- says, with the same response and the same store, pool and messages sent; the DHCP handler panics
  -- or runs on when that function does.
  pub run_alone-handlers :
      {Payload : Type 0} (unmarshal : Payload → Option StatusMessage) (w : World S)
      → ((clock : ℕ → Time) (req : Option RegisterNodeRequest)
          → run_alone repo s (register_calls clock req) w
            ≡ answers w (register_node repo clock req w.store))
        × ((now : Time) (mac : Text) (action : Option Text)
            → run_alone repo s (update_calls now mac action) w
              ≡ answers w (update_node repo now mac action w.store))
        × ((now saved_at : Time) (topic : Text) (payload : Payload)
            → run_alone repo s (status_calls now saved_at topic (unmarshal payload)) w
              ≡ stores w (on_status_message repo unmarshal now saved_at topic payload w.store))
        × ((clock : ℕ → Time) (msg : Option Message)
            → run_alone repo s (dhcp_calls s clock msg) w ≡ ends (handle_dhcp repo s clock msg w))
  run_alone-handlers unmarshal w = (
    λ clock req. register_calls-alone clock req w,
    λ now mac action. update_calls-alone now mac action w,
    λ now saved_at topic payload. status_calls-alone unmarshal now saved_at topic payload w,
    λ clock msg. dhcp_calls-alone clock msg w,
  )
