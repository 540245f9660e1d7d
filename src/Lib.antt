-- ===== src/Lib.antt =====
-- nodefoundry: the server that discovers bare-metal machines over DHCP, installs them, and follows
-- their state.
--
-- The parts and the files that model them:
-- - Base: shared names, Boolean tests on the native numbers, results, texts as lists of character
--   codes, and Go's maps as association lists.
-- - Model (internal/model/node.go): the node, its states and transitions, and the normal form of MAC
--   addresses. Model/Lifecycle and Model/Mac hold the proofs. `CanTransitionTo` is can_transition_to,
--   `NormalizeMAC` is normalize_mac, and so on.
-- - Db (internal/db/node_repository.go): what the clients need of a repository, as operations and
--   laws. Db/Bolt (internal/db/bolt_node_repository.go) is the implementation over a bucket of bbolt
--   and a codec, which are parameters; Db/Bolt/Laws, Sorting and Listing are about it, and
--   Db/Bolt/Memory is an instance. Db/WellFormed is about stores in which each node is filed under
--   its own address with a valid status.
-- - Dhcp/Ip (the functions of Go's package net that print and convert addresses), Dhcp/Pool
--   (internal/dhcp/ip_pool.go and errors.go): the pool of addresses and its leases. Dhcp/Message and
--   Dhcp/Server (internal/dhcp/server.go): what is answered, and what is written to the store.
-- - Mqtt (internal/mqtt/client.go): the handler of status messages.
-- - Ipxe (internal/ipxe/generator.go and preseed.go): the boot scripts and the installer's answers;
--   Ipxe/Queries is about the query in which the one hands its parameters to the other.
-- - Agent (internal/agent): the agent's address (netif.go), commands (dispatcher.go, command), settings
--   (config, in Agent/Settings), what it reads of its machine (info, in Agent/Machine), its client of
--   the broker (mqtt.go, in Agent/Client), and its process (cmd/nodefoundry-agent/main.go, in
--   Agent/Process, with its start in Agent/Process/Startup).
-- - Api (internal/api/handler.go): the handlers of nodes; those of scripts are in Api/Boot, and the
--   routes, with the handlers of files and of the health check, in Api/Routes.
-- - Config (internal/server/config.go): the settings, from the environment.
-- - Server (internal/server/server.go): `NewServer` is new_server; Server/Running has the goroutines
--   of `Start`, `Run` and `Shutdown` as steps, with the `Start` of the DHCP server and of the MQTT
--   client, which `Start` runs, and Server/Main has the process (cmd/nodefoundry/main.go). `db.Close`
--   and the building of a logger may fail.
-- - System: all handlers over one store. In System they run one after the other; System/Calls has each
--   as the sequence of its calls of the repository, the pool and the connection, and
--   System/Interleaved lets the calls of any number of handlers interleave. System/Install follows one
--   machine through the API, the agent, the MQTT handler and the boot script, and
--   System/Install/Heartbeats is about what the server reads of a run of the agent.
--
-- State is passed explicitly: the repository's store, the pool, and the messages sent, in a `World`.
-- A failing call returns its error as a value; a run that may panic or not end is a `Run`. Every
-- reading of the clock is an argument. A method under a mutex, and a transaction of bbolt, is one
-- function, so a step is a whole call. A goroutine that waits has no step until what it waits for is
-- there; a timeout is a step that is always possible.
--
-- Fuel: the loop of `AllocateIP` has fuel, one for each turn. One more than the addresses that are
-- left is enough, and the theorems say so; where a range ends at the last address of all, 2^32 and
-- one more is enough for the wrapped loop. The two loops of `sortNodes` have the turns that the
-- source gives them, and 19 digits are enough for an int64. Everything else is structural.
--
-- Parameters, for code that is not in the repository: bbolt, `NewReplyFromRequest` of the DHCP library,
-- errgroup, gin, and what the broker answers; of the standard library `net.ParseIP`, `net.ParseMAC`,
-- `strconv.Atoi`, floating-point numbers, net/url and encoding/json. What is assumed of them stands
-- with the hypotheses of the theorems.
--
-- Not modelled: sockets and the broker's protocol, logging, of which there is only the level of the server,
-- and the callbacks for a lost connection, which only log. Durations and the uptime are int64, and a
-- product of them wraps around; instants are nanoseconds from the zero time, and do not wrap.
mod Base
pub mod Model
pub mod Db
pub mod Dhcp
pub mod Mqtt
pub mod Ipxe
pub mod Agent
pub mod Api
pub mod Config
pub mod Server
pub mod System
