-- ===== src/Dhcp/Pool/Faults.antt =====
-- Where `AllocateIP` of internal/dhcp/ip_pool.go leaves its range or panics, and what a released
-- address is good for.
use nodefoundry.Base.{
  ℕ, ◌<◌, ◌≡◌, refl, false, Option, none, List, [], arith, ok, Text, text_eq, lookup, ℤ,
}
use nodefoundry.Model.{Time}
use nodefoundry.Dhcp.Ip.{Ip, to4, int_to_ip, ip_to_int}
use nodefoundry.Dhcp.Pool.{
  IpManager, returns, panics, is_ip_allocated, allocate_new, allocate_normalized, allocate_ip,
  assign, pool_mac, to_int, grants_request, new_ip_manager,
}
use nodefoundry.Dhcp.Pool.Scan.{AllTaken, scan_wraps}
use nodefoundry.Dhcp.Pool.Consistency.{IsConsistent}
use nodefoundry.Dhcp.Pool.Allocation.{start_int, end_int}

grants_request-nil : (m : IpManager) → grants_request m [] ≡ returns false
unfolding grants_request text_eq
grants_request-nil m = refl

to_int-nil : to_int [] ≡ panics
unfolding to_int ip_to_int
to_int-nil = refl

new_ip_manager-start :
    (parse_ip : Text → Ip) (start end_ip netmask gateway : Text) (dns : List Text) (secs : ℤ)
    (m : IpManager)
    → new_ip_manager parse_ip start end_ip netmask gateway dns secs ≡ ok m
    → (m.start ≡ to4 (parse_ip start)) × (m.leases ≡ [])
unfolding new_ip_manager
new_ip_manager-start parse_ip start end_ip netmask gateway dns secs m h = ground arith

module _ (parse_mac : Text → Option (List ℕ)) where
  -- When a pool that ends at 255.255.255.255 is full, a client without a lease that requests no
  -- address is not refused: it gets a lease of 0.0.0.0, if that is free.
  pub allocate_ip_wraps :
      {s : ℕ} {m : IpManager} (fuel : ℕ) (now : Time) (mac : Text)
      → IsConsistent s 4294967295 m
      → lookup m.leases (pool_mac parse_mac mac) ≡ none
      → AllTaken m s 4294967296
      → is_ip_allocated m (int_to_ip 0) ≡ false
      → 4294967296 < fuel
      → allocate_ip parse_mac fuel now mac [] m
        ≡ returns (ok (int_to_ip 0), assign now (pool_mac parse_mac mac) (int_to_ip 0) m)
  unfolding allocate_ip allocate_normalized
  allocate_ip_wraps {s} {m} fuel now mac c nothing taken unused enough =
      let run : allocate_new fuel now (pool_mac parse_mac mac) [] m
          ≡ returns (ok (int_to_ip 0), assign now (pool_mac parse_mac mac) (int_to_ip 0) m) =
        rw (
          allocate_new,
          grants_request-nil m,
          start_int c,
          end_int c,
          scan_wraps fuel m s c.start_fits taken unused (omega arith),
        ) in
      ground (arith, nothing, run)

  -- `NewIPManager` accepts a start that is an address of another kind than IPv4; the pool then panics
  -- at the first client, if that client requests no address.
  pub allocate_ip_panics :
      (parse_ip : Text → Ip) (start end_ip netmask gateway : Text) (dns : List Text) (secs : ℤ)
      (fuel : ℕ) (now : Time) (mac : Text) (m : IpManager)
      → new_ip_manager parse_ip start end_ip netmask gateway dns secs ≡ ok m
      → to4 (parse_ip start) ≡ []
      → allocate_ip parse_mac fuel now mac [] m ≡ panics
  unfolding allocate_ip allocate_normalized
  allocate_ip_panics parse_ip start end_ip netmask gateway dns secs fuel now mac m made nil =
      let (no_start, no_leases) =
        new_ip_manager-start parse_ip start end_ip netmask gateway dns secs m made in
      let stuck : to_int m.start ≡ panics = rw (no_start, nil) to_int-nil in
      let run : allocate_new fuel now (pool_mac parse_mac mac) [] m ≡ panics =
        rw (allocate_new, grants_request-nil m, stuck) in
      let nothing : lookup m.leases (pool_mac parse_mac mac) ≡ none =
        rw no_leases (unfold lookup in refl) in
      ground (arith, nothing, run)
