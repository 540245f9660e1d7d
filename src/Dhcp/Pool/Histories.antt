-- ===== src/Dhcp/Pool/Histories.antt =====
-- Any sequence of calls of the pool of internal/dhcp/ip_pool.go, from `NewIPManager` on.
use nodefoundry.Base.{
  ℕ, ◌+◌, ◌≤◌, ◌<◌, ◌≡◌, refl, ◌⊎◌, true, Bool-cases, inl, inr, Option, none, some, Option-cases,
  List, arith, Result, ok, err, Text, text_eq, lookup, insert, [], subst, ℤ,
}
use nodefoundry.Model.{Time, add_duration}
use nodefoundry.Dhcp.Ip.{Ip, to4, int_to_ip, ip_string}
use nodefoundry.Dhcp.Ip.Four.{IsBytes}
use nodefoundry.Dhcp.Ip.Strings.{ip_string-injective}
use nodefoundry.Dhcp.Pool.{
  PoolError, ip_pool_exhausted, Lease, IpManager, returns, is_ip_allocated, allocate_normalized,
  allocate_ip, renew_lease, release_ip, pool_mac, new_ip_manager, assign, renew_normalized,
}
use nodefoundry.Dhcp.Pool.Consistency.{
  InPool, IsConsistent, assign-IsConsistent, renew-IsConsistent, release-IsConsistent,
}
use nodefoundry.Dhcp.Pool.Allocation.{allocate_new_lem, allocated-int_to_ip}
use nodefoundry.Dhcp.Pool.Leases.{lease_unique}

-- Some client has a lease on address `i`, expired or not.
abbrev pub IsLeased : IpManager → ℕ → Type 0
IsLeased m i = (k : Text) × (l : Lease) × (lookup m.leases k ≡ some l) × (l.ip ≡ int_to_ip i)

-- In a consistent pool a taken address is leased.
taken-IsLeased :
    {s e : ℕ} {m : IpManager}
    → IsConsistent s e m
    → (i : ℕ) → i ≤ e
    → is_ip_allocated m (int_to_ip i) ≡ true
    → IsLeased m i
taken-IsLeased {s} {e} {m} c i below taken =
    let (k, at) = allocated-int_to_ip m i taken in
    let (l, held, addr) = c.allocated_leased (ip_string (int_to_ip i)) k at in
    let (j, above, under, is) = c.lease_in_pool k l held in
    let end_fits : e < 4294967296 = c.end_fits in
    let same : j ≡ i = ip_string-injective j i (omega arith) (omega arith) (rw (← is) addr) in
    (k, l, held, rw (← same) is)

-- What a call of `AllocateIP` may return.
abbrev pub AllocationOutcome : ℕ → ℕ → IpManager → Text → Result PoolError Ip → IpManager → Type 0
AllocationOutcome s e m mac r m' =
    ((ip : Ip) × (r ≡ ok ip) × InPool s e ip)
    ⊎ ((r ≡ err ip_pool_exhausted)
        × (m' ≡ m)
        × (lookup m.leases mac ≡ none)
        × ((i : ℕ) → s ≤ i → i ≤ e → IsLeased m i))

allocate_normalized-outcome :
    {s e : ℕ} {m : IpManager} (fuel : ℕ) (now : Time) (mac : Text) (requested : Ip)
    → IsConsistent s e m
    → e < 4294967295
    → s ≤ e + 1
    → e + 1 < s + fuel
    → IsBytes requested
    → (r : Result PoolError Ip) × (m' : IpManager) × (allocate_normalized fuel now mac requested m
        ≡ returns (r, m'))
      × IsConsistent s e m'
      × AllocationOutcome s e m mac r m'
unfolding allocate_normalized
allocate_normalized-outcome {s} {e} {m} fuel now mac requested c top order enough b =
    elim (Option-cases (lookup m.leases mac)) [
      | inr (l, held) ↦ (
        ok l.ip,
        record m {
          leases = insert m.leases mac (record l { expires_at = add_duration now m.lease_time });
        },
        ground arith,
        renew-IsConsistent c mac l held (add_duration now m.lease_time),
        inl (l.ip, refl, c.lease_in_pool mac l held),
      )
      | inl nothing ↦ elim (allocate_new_lem c fuel now mac requested top order enough b) [
        | inl (ip, run, pool, unused) ↦ (
          ok ip,
          assign now mac ip m,
          ground (arith, run),
          assign-IsConsistent c now mac ip pool nothing unused,
          inl (ip, refl, pool),
        )
        | inr (run, taken) ↦ (
          err ip_pool_exhausted,
          m,
          ground (arith, run),
          c,
          inr (
            refl,
            refl,
            nothing,
            λ i above below. taken-IsLeased c i below (taken i above (omega arith)),
          ),
        )
      ]
    ]

release_ip-IsConsistent :
    {s e : ℕ} {m : IpManager} (ip : Ip) → IsConsistent s e m → IsConsistent s e (release_ip ip m).1
unfolding release_ip
release_ip-IsConsistent {m = m} ip c = elim (Bool-cases (text_eq (to4 ip) [])) [
  | inl nil ↦ rw nil c
  | inr given ↦ elim (Option-cases (lookup m.allocated (ip_string (to4 ip)))) [
    | inl nothing ↦ rw (given, nothing) c
    | inr (k, held) ↦ rw (given, held) (release-IsConsistent c (ip_string (to4 ip)) k held)
  ]
]

new_ip_manager-empty :
    (parse_ip : Text → Ip) (start end_ip netmask gateway : Text) (dns : List Text) (secs : ℤ)
    (m : IpManager)
    → new_ip_manager parse_ip start end_ip netmask gateway dns secs ≡ ok m
    → (m.leases ≡ []) × (m.allocated ≡ [])
unfolding new_ip_manager
new_ip_manager-empty parse_ip start end_ip netmask gateway dns secs m h = ground arith

-- A new pool is consistent for the range between its two ends.
pub new_ip_manager-IsConsistent :
    (parse_ip : Text → Ip) (start end_ip netmask gateway : Text) (dns : List Text) (secs : ℤ)
    {s e : ℕ} {m : IpManager}
    → new_ip_manager parse_ip start end_ip netmask gateway dns secs ≡ ok m
    → m.start ≡ int_to_ip s
    → m.end_ip ≡ int_to_ip e
    → s < 4294967296
    → e < 4294967296
    → IsConsistent s e m
new_ip_manager-IsConsistent parse_ip start end_ip netmask gateway dns secs {s} {e} {m} made starts
      ends s_fits e_fits =
    let (no_leases, nothing) =
      new_ip_manager-empty parse_ip start end_ip netmask gateway dns secs m made in
    let empty : (t : Text) → lookup m.leases t ≡ none = λ t. rw no_leases (unfold lookup in refl) in
    let unused : (t : Text) → lookup m.allocated t ≡ none =
      λ t. rw nothing (unfold lookup in refl) in
    record {
      starts = starts;
      ends = ends;
      start_fits = s_fits;
      end_fits = e_fits;
      lease_filed = λ t x h. absurd (ground (arith, empty t));
      lease_in_pool = λ t x h. absurd (ground (arith, empty t));
      lease_allocated = λ t x h. absurd (ground (arith, empty t));
      allocated_leased = λ a t h. absurd (ground (arith, unused a));
    }

renew_normalized-IsConsistent :
    {s e : ℕ} {m : IpManager} (now : Time) (mac : Text)
    → IsConsistent s e m
    → IsConsistent s e (renew_normalized now mac m).1
unfolding renew_normalized
renew_normalized-IsConsistent {m = m} now mac c = elim (Option-cases (lookup m.leases mac)) [
  | inl nothing ↦ rw (nothing, renew_normalized) c
  | inr (l, held) ↦
      rw (held, renew_normalized) (renew-IsConsistent c mac l held (add_duration now m.lease_time))
]

module _ (parse_mac : Text → Option (List ℕ)) where
  -- `AllocateIP` on a consistent pool that does not reach 255.255.255.255 always returns, with one
  -- turn of the loop for each address and one more: an address of the pool, or, to a client without a
  -- lease and only when every address of the pool is leased (expired or not), the exhaustion error,
  -- and then the pool is unchanged. The pool is consistent again.
  pub allocate_ip-outcome :
      {s e : ℕ} {m : IpManager} (fuel : ℕ) (now : Time) (mac : Text) (requested : Ip)
      → IsConsistent s e m
      → e < 4294967295
      → s ≤ e + 1
      → e + 1 < s + fuel
      → IsBytes requested
      → (r : Result PoolError Ip) × (m' : IpManager) × (allocate_ip parse_mac fuel now mac requested
            m
          ≡ returns (r, m'))
        × IsConsistent s e m'
        × AllocationOutcome s e m (pool_mac parse_mac mac) r m'
  unfolding allocate_ip
  allocate_ip-outcome fuel now mac requested c top order enough b =
      allocate_normalized-outcome fuel now (pool_mac parse_mac mac) requested c top order enough b

  -- One call of a method that writes. The loop is given more turns than there are addresses.
  pub data PoolStep (m : IpManager) : IpManager → Type 0 where
    allocates :
        (fuel : ℕ) (now : Time) (mac : Text) (requested : Ip) (r : Result PoolError Ip)
        (m' : IpManager)
        → 4294967296 < fuel
        → IsBytes requested
        → allocate_ip parse_mac fuel now mac requested m ≡ returns (r, m')
        → PoolStep m m'
    renews : (now : Time) (mac : Text) → PoolStep m (renew_lease parse_mac now mac m).1
    releases : (ip : Ip) → PoolStep m (release_ip ip m).1

  pub data PoolReach (m : IpManager) : IpManager → Type 0 where
    here : PoolReach m m
    next : {m' m'' : IpManager} → PoolReach m m' → PoolStep m' m'' → PoolReach m m''

  module _ (s e : ℕ) (top : e < 4294967295) (order : s ≤ e + 1) where
    PoolStep-IsConsistent :
        {m m' : IpManager} → PoolStep m m' → IsConsistent s e m → IsConsistent s e m'
    PoolStep-IsConsistent (allocates fuel now mac requested r m' enough b run) c =
        let (r', after, run', c', _) =
          allocate_ip-outcome fuel now mac requested c top order (omega arith) b in
        let same : after ≡ m' = ground arith in subst (IsConsistent s e) same c'
    PoolStep-IsConsistent (renews now mac) c =
        unfold renew_lease in renew_normalized-IsConsistent now (pool_mac parse_mac mac) c
    PoolStep-IsConsistent (releases ip) c = release_ip-IsConsistent ip c

    pub PoolReach-IsConsistent :
        {m m' : IpManager} → PoolReach m m' → IsConsistent s e m → IsConsistent s e m'
    PoolReach-IsConsistent here c = c
    PoolReach-IsConsistent (next r st) c = PoolStep-IsConsistent st (PoolReach-IsConsistent r c)

    -- In every pool that calls of its methods reach from `NewIPManager`, for a range that ends below
    -- 255.255.255.255: each lease is for an address of the range, and no two clients hold one address.
    pub reach_unique :
        (parse_ip : Text → Ip) (start end_ip netmask gateway : Text) (dns : List Text) (secs : ℤ)
        {m m' : IpManager}
        → new_ip_manager parse_ip start end_ip netmask gateway dns secs ≡ ok m
        → m.start ≡ int_to_ip s
        → m.end_ip ≡ int_to_ip e
        → PoolReach m m'
        → (k j : Text) (l l' : Lease) → lookup m'.leases k ≡ some l
        → lookup m'.leases j ≡ some l'
        → l.ip ≡ l'.ip
        → (k ≡ j) × InPool s e l.ip
    reach_unique parse_ip start end_ip netmask gateway dns secs {m} made starts ends r k j l l' hk
          hj same =
        let first : IsConsistent s e m =
          new_ip_manager-IsConsistent parse_ip start end_ip netmask gateway dns secs made starts
            ends (omega arith) (omega arith) in
        let c = PoolReach-IsConsistent r first in
        (lease_unique c k j l l' hk hj same, c.lease_in_pool k l hk)
