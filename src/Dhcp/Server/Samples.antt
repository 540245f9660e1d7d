-- ===== src/Dhcp/Server/Samples.antt =====
-- A server over a store in memory, for the tests of the DHCP server and of the system.
use nodefoundry.Base.{
  ◌≡◌, refl, insert, Option, some, none, [], ◌∷◌, codes, false, ℕ, text_eq, ◌+◌, lookup, insert,
  ◌≡◌,
}
use nodefoundry.Db.Bolt.{save, find_by_mac}
use nodefoundry.Db.Bolt.Memory.{Memory, memory_repository, two_nodes}
use nodefoundry.Dhcp.Pool.Samples.{parse_ip, parse_mac, fresh_pool}
use nodefoundry.Dhcp.Message.{Message, discover, other_type}
use nodefoundry.Dhcp.Server.{DhcpServer, World, handle_dhcp, build_response, respond, assigned_ip}
use nodefoundry.Dhcp.Pool.{
  Run, returns, allocate_ip, grants_request, to_int, scan, is_ip_allocated, assign,
}
use nodefoundry.Dhcp.Ip.{is_unspecified, ip_to_int, to4, ip_string, int_to_ip, hardware_string}
use nodefoundry.Model.{Time, validate, normalize_mac, new_node}

-- The reply copies the hardware address, and no option.
abbrev pub blank : Message → Message
blank req = record {
  message_type = other_type 0;
  client_hw_addr = req.client_hw_addr;
  client_ip = [];
  your_ip = [];
  requested_ip = [];
  system_architecture = none;
  subnet_mask = none;
  router = none;
  dns = none;
  lease_time = none;
  server_identifier = none;
  tftp_server_name = none;
  boot_file_name = none;
  broadcast_address = none;
}

abbrev pub plain_reply : Message → Option Message
plain_reply req = some (blank req)

abbrev pub small_server : DhcpServer
small_server = record {
  parse_ip = parse_ip;
  parse_mac = parse_mac;
  reply = plain_reply;
  fuel = 4;
  tftp_server = codes "10.0.0.1";
  proxy_mode = false;
}

-- A BIOS client asks for an address.
abbrev pub discovery : Message
discovery = record {
  message_type = discover;
  client_hw_addr = 10 ∷ 0 ∷ 0 ∷ 0 ∷ 0 ∷ 1 ∷ [];
  client_ip = [];
  your_ip = [];
  requested_ip = [];
  system_architecture = some (0 ∷ 0 ∷ []);
  subnet_mask = none;
  router = none;
  dns = none;
  lease_time = none;
  server_identifier = none;
  tftp_server_name = none;
  boot_file_name = none;
  broadcast_address = none;
}

abbrev pub small_world : World Memory
small_world = record { store = two_nodes; pool = some fresh_pool; sent = [] }

-- What a run returns, and `d` if it does not return.
abbrev pub returned {ℓ} : {A : Type ℓ} → A → Run A → A
returned d (returns a) = a
returned d _ = d

abbrev pub ticks : ℕ → Time
ticks n = 20 + n

-- The world after the client's first message.
abbrev pub served_world : World Memory
served_world =
    returned small_world
      (handle_dhcp memory_repository small_server ticks (some discovery) small_world)

pub served :
    handle_dhcp memory_repository small_server ticks (some discovery) small_world
    ≡ returns served_world
unfolding handle_dhcp respond assigned_ip is_unspecified save find_by_mac validate normalize_mac
    new_node build_response allocate_ip grants_request text_eq lookup to_int ip_to_int scan
    is_ip_allocated to4 assign insert ip_string int_to_ip hardware_string
served = refl
