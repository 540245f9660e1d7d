-- ===== src/System/Tests.antt =====
-- The whole server at a small world.
use Prim.{tt}
use nodefoundry.Dhcp.Message.{Message}
use nodefoundry.Dhcp.Ip.{hardware_string}
use nodefoundry.Base.{some, codes, ◌≡◌, refl, text_eq}
use nodefoundry.Model.{normalize_mac}
use nodefoundry.Db.Bolt.{find_by_mac}
use nodefoundry.Db.Bolt.Memory.{Memory, two_nodes, memory_repository, mac_a}
use nodefoundry.Db.Bolt.Samples.{memory_laws, two_nodes-IsWellFormed}
use nodefoundry.Db.WellFormed.{IsWellFormed, Evolves}
use nodefoundry.Dhcp.Server.{World}
use nodefoundry.Dhcp.Server.Samples.{ticks, small_server, discovery, served_world, served}
use nodefoundry.Mqtt.{StatusMessage, on_status_message}
use nodefoundry.Api.{update_node}
use nodefoundry.Base.{Text, [], ◌∷◌, arith}
use nodefoundry.Db.Creation.{Keeps}
use nodefoundry.Dhcp.Ip.{hardware_string}
use nodefoundry.Dhcp.Message.{Message}
use nodefoundry.Dhcp.Pool.Samples.{fresh_pool, fresh_pool-IsConsistent}
use nodefoundry.Dhcp.Server.Samples.{small_world}
use nodefoundry.System.Calls.{
  Calls, Outcome, done, finds, dhcp_calls, discovered_calls, update_calls, standard_calls,
}
use nodefoundry.System.Interleaved.{
  Running, Reach, later, here, starts, moves, found, serves, installs, interleaved_store,
}
use nodefoundry.System.Interleaved.Progress.{handler_ends}
use nodefoundry.System as System
use nodefoundry.System.{next, updates, reports, server_lifecycle}

abbrev finished : StatusMessage
finished = record { status = codes "installed"; ip = codes "10.0.0.9"; hostname = codes "rack1" }

-- After a DISCOVER, an install of the first node, and its report that it is installed.
abbrev installing_world : World Memory
installing_world = record served_world {
  store = (update_node memory_repository 40 mac_a (some (codes "install")) served_world.store).1;
}

abbrev installed_world : World Memory
installed_world = record installing_world {
  store =
      on_status_message memory_repository (λ m. some m) 50 51 (codes "node/aabbccddeeff/status")
        finished installing_world.store;
}

server_lifecycle_example :
    IsWellFormed memory_repository installed_world.store
    × Evolves memory_repository two_nodes installed_world.store
server_lifecycle_example =
    server_lifecycle memory_repository small_server (λ (m : StatusMessage). some m) memory_laws
      (next
        (next (next System.here (System.serves ticks (some discovery) served_world served))
          (updates 40 mac_a (some (codes "install"))))
        (reports 50 51 (codes "node/aabbccddeeff/status") finished))
      two_nodes-IsWellFormed

-- A client's message has been looked up when a request to install the first node arrives.
abbrev idle : Running Memory
idle = record { world = small_world; in_flight = [] }

abbrev looked_up : Calls
looked_up =
    discovered_calls ticks discovery (codes "0a0000000001")
      (memory_repository.find_by_mac (codes "0a0000000001") two_nodes)

abbrev two_in_flight : Running Memory
two_in_flight = record {
  world = small_world;
  in_flight = update_calls 40 mac_a (some (codes "install")) ∷ looked_up ∷ [];
}

looks_up :
    dhcp_calls small_server ticks (some discovery) ∷ []
    ≡ finds (codes "0a0000000001") (discovered_calls ticks discovery (codes "0a0000000001")) ∷ []
unfolding dhcp_calls standard_calls text_eq hardware_string normalize_mac
looks_up = refl

overlap : Reach memory_repository small_server two_in_flight idle
overlap =
    later (starts (dhcp_calls small_server ticks (some discovery)) (serves ticks discovery tt refl))
      (later (moves [] [] looks_up found) (
        later
          (starts (update_calls 40 mac_a (some (codes "install")))
            (installs 40 mac_a (some (codes "install")) refl))
          here))

interleaved_store_example :
    IsWellFormed memory_repository two_nodes × Keeps memory_repository two_nodes two_nodes
interleaved_store_example =
    interleaved_store memory_repository small_server memory_laws overlap two_nodes-IsWellFormed

handler_ends_example :
    (o : Outcome) × (w : World Memory) × Reach memory_repository small_server
      (record {
        world = w;
        in_flight = update_calls 40 mac_a (some (codes "install")) ∷ done o ∷ [];
      })
      (record {
        world = small_world;
        in_flight = update_calls 40 mac_a (some (codes "install")) ∷ looked_up ∷ [];
      })
handler_ends_example =
    handler_ends memory_repository small_server (omega arith) (omega arith) (omega arith)
      (update_calls 40 mac_a (some (codes "install")) ∷ []) [] looked_up
      (fresh_pool, refl, fresh_pool-IsConsistent) refl overlap refl

-- The machine of the first node asks for an address while it is being installed.
abbrev known_machine : Message
known_machine = record discovery { client_hw_addr = 0xaa ∷ 0xbb ∷ 0xcc ∷ 0xdd ∷ 0xee ∷ 0xff ∷ [] }

abbrev known_mac : Text
known_mac = normalize_mac (hardware_string known_machine.client_hw_addr)
