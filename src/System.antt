-- ===== src/System.antt =====
-- The parts of the server over one store: HTTP requests, status messages and DHCP messages in any
-- order (internal/server/server.go starts them over one repository).
pub mod Calls
pub mod Interleaved
pub mod Install
mod Tests
use nodefoundry.Base.{ℕ, ◌≡◌, refl, sym, ap, ◌∙◌, none, some, Option, arith, ok, Text, codes}
use nodefoundry.Model.{Time, Node, normalize_mac, state_discovered, state_installing}
use nodefoundry.Db.{NodeRepository, IsRepository}
use nodefoundry.Db.WellFormed.{IsWellFormed, Evolves, Evolves-refl, Evolves-trans, find-save_found}
use nodefoundry.Mqtt.{StatusMessage, on_status_message}
use nodefoundry.Mqtt.Status.{on_status_message-safe}
use nodefoundry.Api.{RegisterNodeRequest, register_node, update_node}
use nodefoundry.Api.Nodes.{update_node-installed}
use nodefoundry.Api.Safety.{register_node-safe, update_node-safe}
use nodefoundry.Dhcp.Pool.{returns}
use nodefoundry.Dhcp.Message.{Message}
use nodefoundry.Dhcp.Server.{DhcpServer, World, handle_dhcp}
use nodefoundry.Dhcp.Server.Safety.{handle_dhcp-safe}

module _ {S Payload : Type 0} (repo : NodeRepository S) (s : DhcpServer)
    (unmarshal : Payload → Option StatusMessage) where
  -- One event that the server handles, from beginning to end.
  pub data ServerStep (w : World S) : World S → Type 0 where
    registers :
        (clock : ℕ → Time) (req : Option RegisterNodeRequest)
        → ServerStep w (record w { store = (register_node repo clock req w.store).1 })
    updates :
        (now : Time) (mac : Text) (action : Option Text)
        → ServerStep w (record w { store = (update_node repo now mac action w.store).1 })
    reports :
        (now saved_at : Time) (topic : Text) (payload : Payload)
        → ServerStep w (record w {
          store = on_status_message repo unmarshal now saved_at topic payload w.store;
        })
    serves :
        (clock : ℕ → Time) (msg : Option Message) (w' : World S)
        → handle_dhcp repo s clock msg w ≡ returns w'
        → ServerStep w w'

  pub data ServerReach (w : World S) : World S → Type 0 where
    here : ServerReach w w
    next : {w' w'' : World S} → ServerReach w w' → ServerStep w' w'' → ServerReach w w''

  module _ (laws : IsRepository repo) where
    ServerStep-safe :
        {w w' : World S}
        → ServerStep w w'
        → IsWellFormed repo w.store
        → IsWellFormed repo w'.store × Evolves repo w.store w'.store
    ServerStep-safe {w} (registers clock req) wf = register_node-safe repo laws w.store wf clock req
    ServerStep-safe {w} (updates now mac action) wf =
        update_node-safe repo laws w.store wf now mac action
    ServerStep-safe {w} (reports now saved_at topic payload) wf =
        on_status_message-safe repo laws unmarshal now saved_at topic payload w.store wf
    ServerStep-safe {w} (serves clock msg w' run) wf =
        handle_dhcp-safe repo s laws clock msg w w' wf run

    -- Whatever events the server handles one after the other, a well-formed store stays well formed,
    -- no node is ever lost, and every node only moves forward: discovered, installing, installed.
    pub server_lifecycle :
        {w w' : World S}
        → ServerReach w w'
        → IsWellFormed repo w.store
        → IsWellFormed repo w'.store × Evolves repo w.store w'.store
    server_lifecycle {w} here wf = (wf, Evolves-refl repo laws w.store wf)
    server_lifecycle {w} (next {w' = mid} {w'' = end_world} r st) wf =
        let (wf', first) = server_lifecycle r wf in
        let (wf'', later) = ServerStep-safe st wf' in
        (wf'', Evolves-trans repo w.store mid.store end_world.store first later)

module _ {S : Type 0} (repo : NodeRepository S) (laws : IsRepository repo) where
  -- Interleaved handlers lose an update: when an install succeeds between the moment at which the
  -- DHCP handler finds a node and the moment at which it saves it, and that save succeeds, the node
  -- was installing in between and is discovered again afterwards.
  pub stale_save-reverts :
      (now later : Time) (mac : Text) (old : Node) (st : S)
      → IsWellFormed repo st
      → repo.find_by_mac mac st ≡ ok old
      → (update_node repo now mac (some (codes "install")) st).0.status_code ≡ 200
      → (repo.save later old (update_node repo now mac (some (codes "install")) st).1).0 ≡ none
      → (between after : Node) × (repo.find_by_mac mac
            (update_node repo now mac (some (codes "install")) st).1
          ≡ ok between)
        × (between.status ≡ state_installing)
        × (repo.find_by_mac mac
              (repo.save later old (update_node repo now mac (some (codes "install")) st).1).2
            ≡ ok after)
        × (after.status ≡ state_discovered)
  stale_save-reverts now later mac old st wf there answered saved =
      let installed = update_node repo now mac (some (codes "install")) st in
      let (found, at, fresh, act, between, body) =
        update_node-installed repo laws now mac mac (some (codes "install")) st answered refl in
      let same : found ≡ old = ground arith in
      let wf' = (update_node-safe repo laws st wf now mac (some (codes "install"))).0 in
      (
        record found { status = state_installing; updated_at = now },
        record old { mac = normalize_mac mac; created_at = found.created_at; updated_at = later },
        between,
        refl,
        find-save_found repo laws later mac old installed.1 wf'
            (record found { status = state_installing; updated_at = now }) mac between
            (ap (λ (x : Node). x.mac) (sym same)) saved refl,
        ap (λ (x : Node). x.status) (sym same) ∙ fresh,
      )
