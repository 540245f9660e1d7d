-- ===== src/Dhcp/Pool/Tests.antt =====
-- The pool at concrete values.
use nodefoundry.Model.{add_duration}
use Prim.{tt}
use nodefoundry.Base.{
  none, some, [], ◌∷◌, ℕ, ◌≡◌, refl, codes, text_eq, if◌then◌else◌, lookup, insert, erase, arith,
  Result, ok, err, ltb, pos,
}
use nodefoundry.Dhcp.Ip.{Ip, int_to_ip, to4, ip_to_int, ip_string, is_unspecified, hardware_string}
use nodefoundry.Dhcp.Pool.{
  PoolError, lease_expired, lease_not_found, IpManager, returns, panics, scan, assign, allocate_ip,
  renew_lease, release_ip, get_lease, new_ip_manager, is_ip_allocated, is_ip_in_pool, to_int,
  grants_request, pool_mac,
}
use nodefoundry.Dhcp.Pool.Scan.{AllTaken}
use nodefoundry.Dhcp.Pool.Consistency.{assign-IsConsistent, IsConsistent, InPool}
use nodefoundry.Dhcp.Pool.Leases.{get_lease-allocate_ip}
use nodefoundry.Dhcp.Pool.Histories.{
  AllocationOutcome, allocate_ip-outcome, here, next, allocates, reach_unique,
}
use nodefoundry.Dhcp.Pool.Faults.{allocate_ip_panics, allocate_ip_wraps}
use nodefoundry.Dhcp.Pool.Samples.{
  first, last, parse_ip, parse_mac, client_a, client_b, fresh_pool, fresh_pool-IsConsistent,
  lease_a, pool_a, pool_b,
}

abbrev fuel : ℕ
fuel = 4294967300

made :
    new_ip_manager parse_ip
      (codes "10.0.0.1")
      (codes "10.0.0.2")
      (codes "255.255.255.0")
      (codes "10.0.0.2")
      []
      (pos 60)
    ≡ ok fresh_pool
unfolding new_ip_manager text_eq to4
made = refl

allocated_a :
    allocate_ip parse_mac fuel 7 (codes "0A-00-00-00-00-01") [] fresh_pool
    ≡ returns (ok (10 ∷ 0 ∷ 0 ∷ 1 ∷ []), pool_a)
unfolding allocate_ip grants_request text_eq lookup to_int ip_to_int scan is_ip_allocated to4 assign
    insert ip_string int_to_ip hardware_string add_duration
allocated_a = refl

allocated_b :
    allocate_ip parse_mac fuel 9 client_b (10 ∷ 0 ∷ 0 ∷ 2 ∷ []) pool_a
    ≡ returns (ok (10 ∷ 0 ∷ 0 ∷ 2 ∷ []), pool_b)
unfolding allocate_ip grants_request is_unspecified is_ip_in_pool text_eq lookup to_int ip_to_int
    scan is_ip_allocated to4 assign insert ip_string int_to_ip hardware_string add_duration
allocated_b = refl

reach_unique_example : (client_a ≡ client_a) × InPool first last lease_a.ip
reach_unique_example =
    reach_unique parse_mac first last (omega arith) (omega arith) parse_ip (codes "10.0.0.1")
      (codes "10.0.0.2") (codes "255.255.255.0") (codes "10.0.0.2") [] (pos 60) made
      (unfold int_to_ip in refl) (unfold int_to_ip in refl)
      (next
        (next here (
          allocates fuel 7 (codes "0A-00-00-00-00-01") [] (ok (10 ∷ 0 ∷ 0 ∷ 1 ∷ [])) pool_a
            (omega arith) tt allocated_a))
        (allocates fuel 9 client_b (10 ∷ 0 ∷ 0 ∷ 2 ∷ []) (ok (10 ∷ 0 ∷ 0 ∷ 2 ∷ [])) pool_b
          (omega arith) (omega arith, (omega arith, (omega arith, (omega arith, tt)))) allocated_b))
      client_a client_a lease_a lease_a (unfold lookup text_eq in refl)
      (unfold lookup text_eq in refl) refl

allocate_ip-outcome_example :
    (r : Result PoolError Ip) × (m' : IpManager) × (allocate_ip parse_mac 4 7 client_a [] fresh_pool
      ≡ returns (r, m'))
    × IsConsistent first last m'
    × AllocationOutcome first last fresh_pool (pool_mac parse_mac client_a) r m'
allocate_ip-outcome_example =
    allocate_ip-outcome parse_mac 4 7 client_a [] fresh_pool-IsConsistent (omega arith)
      (omega arith) (omega arith) tt

get_lease-allocate_ip_example :
    (get_lease parse_mac 60000000009 client_a pool_a
      ≡ (if ltb 60000000007 60000000009 then err lease_expired else ok (10 ∷ 0 ∷ 0 ∷ 1 ∷ [])))
    × (get_lease parse_mac 60000000009 client_b pool_a
        ≡ get_lease parse_mac 60000000009 client_b fresh_pool)
unfolding add_duration
get_lease-allocate_ip_example =
    get_lease-allocate_ip parse_mac fuel 7 60000000009 (codes "0A-00-00-00-00-01") client_a client_b
      [] (10 ∷ 0 ∷ 0 ∷ 1 ∷ []) fresh_pool pool_a allocated_a
      (unfold pool_mac text_eq hardware_string in refl)
      (unfold pool_mac text_eq hardware_string in refl)

abbrev v6_pool : IpManager
v6_pool = record fresh_pool { start = [] }

allocate_ip_panics_example : allocate_ip parse_mac fuel 7 client_a [] v6_pool ≡ panics
allocate_ip_panics_example =
    allocate_ip_panics parse_mac parse_ip (codes "::1") (codes "10.0.0.2") (codes "255.255.255.0")
      (codes "10.0.0.2") [] (pos 60) fuel 7 client_a v6_pool
      (unfold new_ip_manager text_eq to4 in refl) (unfold text_eq to4 in refl)

-- The pool of the one address 255.255.255.255.
abbrev top_pool : IpManager
top_pool = record fresh_pool {
  start = 255 ∷ 255 ∷ 255 ∷ 255 ∷ [];
  end_ip = 255 ∷ 255 ∷ 255 ∷ 255 ∷ [];
}

top_pool-IsConsistent : IsConsistent 4294967295 4294967295 top_pool
unfolding lookup int_to_ip
top_pool-IsConsistent = record {
  starts = refl;
  ends = refl;
  start_fits = omega arith;
  end_fits = omega arith;
  lease_filed = λ t x h. absurd (ground arith);
  lease_in_pool = λ t x h. absurd (ground arith);
  lease_allocated = λ t x h. absurd (ground arith);
  allocated_leased = λ a t h. absurd (ground arith);
}

abbrev full_pool : IpManager
full_pool = assign 7 client_a (255 ∷ 255 ∷ 255 ∷ 255 ∷ []) top_pool

full_pool-IsConsistent : IsConsistent 4294967295 4294967295 full_pool
full_pool-IsConsistent =
    assign-IsConsistent top_pool-IsConsistent 7 client_a (255 ∷ 255 ∷ 255 ∷ 255 ∷ [])
      (4294967295, omega arith, omega arith, unfold int_to_ip in refl) (unfold lookup in refl)
      (unfold lookup in refl)

top_taken : AllTaken full_pool 4294967295 4294967296
unfolding is_ip_allocated int_to_ip to4 text_eq lookup assign insert ip_string
top_taken k above below = let same : k ≡ 4294967295 = omega arith in rw same refl

allocate_ip_wraps_example :
    allocate_ip parse_mac fuel 8 client_b [] full_pool
    ≡ returns (ok (int_to_ip 0), assign 8 (pool_mac parse_mac client_b) (int_to_ip 0) full_pool)
allocate_ip_wraps_example =
    allocate_ip_wraps parse_mac fuel 8 client_b full_pool-IsConsistent
      (unfold pool_mac text_eq assign insert lookup in refl) top_taken
      (unfold is_ip_allocated int_to_ip to4 text_eq lookup assign insert ip_string in refl)
      (omega arith)

released : release_ip (10 ∷ 0 ∷ 0 ∷ 1 ∷ []) pool_a ≡ (none, fresh_pool)
unfolding release_ip to4 text_eq lookup erase ip_string
released = refl

not_renewed : (renew_lease parse_mac 9 client_b pool_a).0 ≡ some lease_not_found
unfolding renew_lease text_eq lookup
not_renewed = refl
