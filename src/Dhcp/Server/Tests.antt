-- ===== src/Dhcp/Server/Tests.antt =====
-- The DHCP server at concrete values.
use Prim.{tt}
use nodefoundry.Base.{
  Option, some, none, [], ◌∷◌, codes, ◌≡◌, ◌≢◌, refl, arith, Result, ok, err, text_eq, lookup,
  insert,
}
use nodefoundry.Db.Bolt.Memory.{Memory, memory_repository, node_a}
use nodefoundry.Dhcp.Ip.{ip_to_int, to4, int_to_ip, hex_string, ip_string, hardware_string}
use nodefoundry.Dhcp.Pool.{
  IpManager, returns, get_lease, allocate_ip, grants_request, to_int, scan, is_ip_allocated, assign,
  pool_mac,
}
use nodefoundry.Dhcp.Pool.Consistency.{IsConsistent}
use nodefoundry.Dhcp.Pool.Samples.{
  parse_ip, fresh_pool, fresh_pool-IsConsistent, first, last, pool_a,
}
use nodefoundry.Dhcp.Message.{
  Message, request, ResponseError, get_boot_file, ipxe_efi, no_reply, offer, build_proxy_offer,
  undionly,
}
use nodefoundry.Dhcp.Server.{World, with_network, build_response, assigned_ip, handle_dhcp}
use nodefoundry.Dhcp.Server.Network.{with_network-netmask}
use nodefoundry.Dhcp.Server.Offers.{build_response-request, build_response-discover, OfferOutcome}
use nodefoundry.Dhcp.Server.BootFile.{build_response-boot_file}
use nodefoundry.Dhcp.Server.Totality.{HasPool, handle_dhcp-returns, handle_dhcp-poolless}
use nodefoundry.Dhcp.Server.Samples.{
  blank, returned, ticks, plain_reply, small_server, discovery, small_world,
}

with_network-netmask_example :
    ((with_network fresh_pool (10 ∷ 0 ∷ 0 ∷ 1 ∷ []) node_a).netmask ≡ hex_string fresh_pool.netmask)
    × ((with_network fresh_pool (10 ∷ 0 ∷ 0 ∷ 1 ∷ []) node_a).netmask
        ≢ ip_string fresh_pool.netmask)
with_network-netmask_example =
    with_network-netmask fresh_pool (10 ∷ 0 ∷ 0 ∷ 1 ∷ []) node_a 255 255 255 0 refl

abbrev renewal : Message
renewal = record discovery { message_type = request }

abbrev renewed : Result ResponseError Message × Option IpManager
renewed = returned (err no_reply, none) (build_response small_server 8 renewal (some pool_a))

build_response-request_example : renewed.1 ≡ some pool_a
build_response-request_example =
    build_response-request small_server 8 renewal (some pool_a) (renewed.1) (renewed.0) refl
      (unfold build_response assigned_ip get_lease lookup text_eq hardware_string in refl)

build_response-discover_example :
    (r : Result ResponseError Message) × (m' : IpManager) × (build_response small_server 7 discovery
        (some fresh_pool)
      ≡ returns (r, some m'))
    × IsConsistent first last m'
    × OfferOutcome first last fresh_pool
        (pool_mac small_server.parse_mac (hardware_string discovery.client_hw_addr))
        r
        m'
build_response-discover_example =
    build_response-discover small_server 7 discovery (blank discovery) fresh_pool-IsConsistent
      (omega arith) (omega arith) (omega arith) tt refl refl

abbrev offered_a : Result ResponseError Message × Option IpManager
offered_a =
    returned (err no_reply, none) (build_response small_server 7 discovery (some fresh_pool))

abbrev message_of : Result ResponseError Message → Message
message_of (ok m) = m
message_of (err _) = discovery

build_response-boot_file_example : (message_of (offered_a.0)).boot_file_name ≡ some ipxe_efi
build_response-boot_file_example =
    build_response-boot_file small_server 7 discovery (some fresh_pool) (offered_a.1)
      (message_of (offered_a.0)) (λ q p h. ground arith)
      (unfold build_response assigned_ip allocate_ip grants_request text_eq lookup to_int ip_to_int
          scan is_ip_allocated to4 assign insert ip_string int_to_ip hardware_string in
        refl)

old_bios : get_boot_file discovery ≡ undionly
unfolding get_boot_file
old_bios = refl

proxied :
    build_proxy_offer parse_ip plain_reply (codes "10.0.0.1") discovery
    ≡ ok (record (blank discovery) {
      message_type = offer;
      server_identifier = some (10 ∷ 0 ∷ 0 ∷ 1 ∷ []);
      tftp_server_name = some (codes "10.0.0.1");
      boot_file_name = some ipxe_efi;
      broadcast_address = some (255 ∷ 255 ∷ 255 ∷ 255 ∷ []);
    })
unfolding build_proxy_offer text_eq
proxied = refl

handle_dhcp-returns_example :
    (w' : World Memory) × (handle_dhcp memory_repository small_server ticks
        (some discovery)
        small_world
      ≡ returns w')
    × HasPool first last w'
handle_dhcp-returns_example =
    handle_dhcp-returns small_server memory_repository ticks discovery small_world (omega arith)
      (omega arith) (omega arith) (fresh_pool, refl, fresh_pool-IsConsistent) tt

abbrev poolless_world : World Memory
poolless_world = record small_world { pool = none }

handle_dhcp-poolless_example :
    (w' : World Memory) × (handle_dhcp memory_repository small_server ticks
        (some discovery)
        poolless_world
      ≡ returns w')
    × (w'.pool ≡ none)
handle_dhcp-poolless_example =
    handle_dhcp-poolless small_server memory_repository ticks discovery poolless_world refl
