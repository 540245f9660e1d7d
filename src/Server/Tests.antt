-- ===== src/Server/Tests.antt =====
-- A server over a store in memory, with a pool of two addresses.
use nodefoundry.Base.{
  ◌≡◌, refl, false, some, none, Result, ok, [], ◌∷◌, codes, text_eq, arith, ℤ, pos,
}
use nodefoundry.Config.{Config}
use nodefoundry.Db.Bolt.{init_bucket, initialize_db, new_repository}
use nodefoundry.Db.Bolt.Memory.{Memory, memory_bucket, plain_codec, memory_repository, empty_store}
use nodefoundry.Dhcp.Ip.{to4, int_to_ip}
use nodefoundry.Dhcp.Pool.Leases.{HasUniqueLeases}
use nodefoundry.Dhcp.Pool.{IpManager, new_ip_manager}
use nodefoundry.Dhcp.Pool.Samples.{fresh_pool, first, last}
use nodefoundry.Dhcp.Server.Samples.{small_server}
use nodefoundry.System.Calls.{update_calls}
use nodefoundry.System.Interleaved.{Running, Reach, later, here, starts, installs}
use nodefoundry.Server.{Server, ServerError, new_server, first_world}
use nodefoundry.Server.Assembly.{new_server-leases}
use nodefoundry.Server.Samples.{small_network}

abbrev small_config : Config ℤ
small_config = record {
  http_addr = codes ":8080";
  dhcp_addr = codes ":67";
  dhcp_interface = [];
  dhcp_tftp_server = codes "10.0.0.1";
  dhcp_proxy_mode = false;
  mqtt_broker = codes "localhost:1883";
  mirror_url = codes "mirrors.ustc.edu.cn";
  db_path = codes "nodes.db";
  log_level = codes "info";
  server_addr = codes "10.0.0.1:8080";
  dhcp_ip_pool_start = codes "10.0.0.1";
  dhcp_ip_pool_end = codes "10.0.0.2";
  dhcp_netmask = codes "255.255.255.0";
  dhcp_gateway = codes "10.0.0.2";
  dhcp_dns = [];
  dhcp_lease_time = pos 60;
}

abbrev answer : Result ServerError (Server Memory)
answer = new_server memory_bucket plain_codec small_network small_config (some none)

abbrev small : Server Memory
small = record {
  config = small_config;
  http_addr = codes ":8080";
  generator = record {
    server_addr = codes "10.0.0.1:8080";
    mirror_url = codes "mirrors.ustc.edu.cn";
  };
  preseed_generator = record {
    server_addr = codes "10.0.0.1:8080";
    mirror_url = codes "mirrors.ustc.edu.cn";
  };
  dhcp_server = record {
    addr = codes ":67";
    interface = [];
    handler = small_server;
    ip_manager = some fresh_pool;
  };
  mqtt_broker = codes "localhost:1883";
  db = empty_store;
}

built : answer ≡ ok small
unfolding new_server init_bucket initialize_db new_repository new_ip_manager text_eq to4
built = refl

abbrev busy : Running Memory
busy = record {
  world = first_world small;
  in_flight = update_calls 40 (codes "aabbccddeeff") (some (codes "install")) ∷ [];
}

one_handler :
    Reach memory_repository small_server busy (record { world = first_world small; in_flight = [] })
one_handler =
    later
      (starts (update_calls 40 (codes "aabbccddeeff") (some (codes "install")))
        (installs 40 (codes "aabbccddeeff") (some (codes "install")) refl))
      here

new_server-leases_example : (m' : IpManager) × (some fresh_pool ≡ some m') × HasUniqueLeases m'
new_server-leases_example =
    new_server-leases small_network small_config memory_bucket plain_codec {s = first} {e = last}
      (some none) small fresh_pool built (unfold text_eq in refl)
      (unfold new_ip_manager text_eq to4 in refl) (unfold int_to_ip in refl)
      (unfold int_to_ip in refl) (omega arith) (omega arith) (omega arith) one_handler
