-- ===== src/Server.antt =====
-- internal/server/server.go: the parts of the server, put together from the settings, and run. What
-- `bbolt.Open` returned is an argument of `new_server`; the logger is left out.
pub mod Assembly
pub mod Running
pub mod Main
pub mod Samples
mod Tests
use nodefoundry.Base.{
  ℕ, Bool, true, false, ◌||◌, Option, none, some, List, [], if◌then◌else◌, Result, ok, err, Text,
  text_eq, ℤ,
}
use nodefoundry.Config.{Config}
use nodefoundry.Ipxe.{Generator}
use nodefoundry.Db.Bolt.{Bucket, Codec, OpenError, initialize_db, new_repository}
use nodefoundry.Dhcp.Ip.{Ip}
use nodefoundry.Dhcp.Pool.{IpManager, PoolError, new_ip_manager}
use nodefoundry.Dhcp.Message.{Message}
use nodefoundry.Dhcp.Server.{DhcpServer, World}

-- What the DHCP code calls of the libraries, with the turns that the pool's loop may take.
pub record Network : Type 0 where
  pub parse_ip : Text → Ip
  pub parse_mac : Text → Option (List ℕ)
  pub reply : Message → Option Message
  pub fuel : ℕ

-- A `DHCPServer` that is not started: where it listens, its handler's settings, and its pool.
pub record DhcpService : Type 0 where
  pub addr : Text
  pub interface : Text
  pub handler : DhcpServer
  pub ip_manager : Option IpManager

-- `NewDHCPServer`
unfoldable pub new_dhcp_server : Network → Text → Text → DhcpService
new_dhcp_server n addr interface = record {
  addr = addr;
  interface = interface;
  handler = record {
    parse_ip = n.parse_ip;
    parse_mac = n.parse_mac;
    reply = n.reply;
    fuel = n.fuel;
    tftp_server = [];
    proxy_mode = false;
  };
  ip_manager = none;
}

-- `SetIPManager`
unfoldable pub set_ip_manager : IpManager → DhcpService → DhcpService
set_ip_manager m d = record d { ip_manager = some m }

-- `SetTFTPServer`
unfoldable pub set_tftp_server : Text → DhcpService → DhcpService
set_tftp_server tftp d = record d { handler = record d.handler { tftp_server = tftp } }

-- `SetProxyMode`
unfoldable pub set_proxy_mode : Bool → DhcpService → DhcpService
set_proxy_mode proxy d = record d { handler = record d.handler { proxy_mode = proxy } }

pub record Server (Database : Type 0) : Type 0 where
  pub config : Config ℤ
  pub http_addr : Text
  pub generator : Generator
  pub preseed_generator : Generator
  pub dhcp_server : DhcpService
  pub mqtt_broker : Text
  pub db : Database

pub data ServerError : Type 0 where
  failed_to_initialize : OpenError → ServerError
  failed_to_create_ip_manager : PoolError → ServerError

-- The pool, when both its ends are set.
unfoldable pub configure_pool : Network → Config ℤ → DhcpService → Result PoolError DhcpService
unfolding set_ip_manager
configure_pool n c d =
    let made =
      new_ip_manager n.parse_ip c.dhcp_ip_pool_start c.dhcp_ip_pool_end c.dhcp_netmask
        c.dhcp_gateway c.dhcp_dns c.dhcp_lease_time in
    if text_eq c.dhcp_ip_pool_start [] || text_eq c.dhcp_ip_pool_end []
    then ok d
    else elim made [ err e ↦ err e | ok m ↦ ok (set_ip_manager m d) ]

-- The TFTP server and the mode, when they are set.
unfoldable pub configure_boot : Config ℤ → DhcpService → DhcpService
unfolding set_tftp_server set_proxy_mode
configure_boot c d =
    let booting =
      if text_eq c.dhcp_tftp_server [] then d else set_tftp_server c.dhcp_tftp_server d in
    if c.dhcp_proxy_mode then set_proxy_mode true booting else booting

-- `NewServer` once there is a database
unfoldable pub assemble :
    {Database : Type 0} → Network → Config ℤ → Database → Result ServerError (Server Database)
unfolding new_dhcp_server configure_pool configure_boot
assemble n c db = elim (configure_pool n c (new_dhcp_server n c.dhcp_addr c.dhcp_interface)) [
  | err e ↦ err (failed_to_create_ip_manager e)
  | ok d ↦ ok (record {
    config = c;
    http_addr = c.http_addr;
    generator = record { server_addr = c.server_addr; mirror_url = c.mirror_url };
    preseed_generator = record { server_addr = c.server_addr; mirror_url = c.mirror_url };
    dhcp_server = configure_boot c d;
    mqtt_broker = c.mqtt_broker;
    db = db;
  })
]

-- `NewServer`
unfoldable pub new_server :
    {Database Data : Type 0}
    → Bucket Database Data
    → Codec Data
    → Network
    → Config ℤ
    → Option Database
    → Result ServerError (Server Database)
unfolding assemble
new_server b codec n c opened = elim (initialize_db b codec opened) [
  | err e ↦ err (failed_to_initialize e)
  | ok db ↦ assemble n c (new_repository b codec db)
]

-- The world that the handlers of a new server start in.
abbrev pub first_world : {Database : Type 0} → Server Database → World Database
first_world s = record { store = s.db; pool = s.dhcp_server.ip_manager; sent = [] }
