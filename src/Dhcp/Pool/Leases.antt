-- ===== src/Dhcp/Pool/Leases.antt =====
-- What the pool of internal/dhcp/ip_pool.go promises a client.
use nodefoundry.Base.{
  ℕ, ◌≡◌, refl, false, inl, inr, Option, some, Option-cases, List, arith, if◌then◌else◌, ok, err,
  Text, text_eq, text_eq_refl, lookup, lookup-insert, ltb, insert,
}
use nodefoundry.Model.{Time, add_duration}
use nodefoundry.Dhcp.Ip.{Ip}
use nodefoundry.Dhcp.Pool.{
  lease_expired, Lease, IpManager, returns, allocate_new, assign, allocate_normalized, allocate_ip,
  get_lease, pool_mac,
}
use nodefoundry.Dhcp.Pool.Consistency.{IsConsistent}

-- No two clients hold a lease of one address.
abbrev pub HasUniqueLeases : IpManager → Type 0
HasUniqueLeases m =
    (k j : Text) (l l' : Lease)
    → lookup m.leases k ≡ some l
    → lookup m.leases j ≡ some l'
    → l.ip ≡ l'.ip
    → k ≡ j

-- In a consistent pool no two clients hold one address.
pub lease_unique :
    {s e : ℕ} {m : IpManager}
    → IsConsistent s e m
    → (k j : Text) (l l' : Lease) → lookup m.leases k ≡ some l
    → lookup m.leases j ≡ some l'
    → l.ip ≡ l'.ip
    → k ≡ j
lease_unique c k j l l' hk hj same =
    ground (arith, c.lease_allocated k l hk, c.lease_allocated j l' hj)

allocate_new-assign :
    (fuel : ℕ) (now : Time) (mac : Text) (requested ip : Ip) (m m' : IpManager)
    → allocate_new fuel now mac requested m ≡ returns (ok ip, m')
    → m' ≡ assign now mac ip m
unfolding allocate_new
allocate_new-assign fuel now mac requested ip m m' h = ground arith

-- The lease that an allocation leaves behind.
abbrev pub LeaseUntil : IpManager → Text → Ip → Time → Type 0
LeaseUntil m mac ip t =
    (l : Lease) × (lookup m.leases mac ≡ some l) × (l.ip ≡ ip) × (l.expires_at ≡ t)

abbrev SameElsewhere : IpManager → Text → IpManager → Type 0
SameElsewhere m mac m' = (k : Text) → text_eq mac k ≡ false → lookup m'.leases k ≡ lookup m.leases k

assign-lease :
    (now : Time) (mac : Text) (ip : Ip) (m : IpManager)
    → LeaseUntil (assign now mac ip m) mac ip (add_duration now m.lease_time)
      × SameElsewhere m mac (assign now mac ip m)
unfolding assign
assign-lease now mac ip m =
    let l : Lease = record { mac = mac; ip = ip; expires_at = add_duration now m.lease_time } in
    (
      (l, ground (arith, lookup-insert m.leases mac mac l, text_eq_refl mac), refl, refl),
      λ k other. ground (arith, lookup-insert m.leases mac k l),
    )

prolong-lease :
    (t : Time) (mac : Text) (l : Lease) (m : IpManager)
    → let m' = record m { leases = insert m.leases mac (record l { expires_at = t }) } in
      LeaseUntil m' mac l.ip t × SameElsewhere m mac m'
prolong-lease t mac l m = (
  (
    record l { expires_at = t },
    ground (arith, lookup-insert m.leases mac mac (record l { expires_at = t }), text_eq_refl mac),
    refl,
    refl,
  ),
  λ k other. ground (arith, lookup-insert m.leases mac k (record l { expires_at = t })),
)

allocate_normalized-lease :
    (fuel : ℕ) (now : Time) (mac : Text) (requested ip : Ip) (m m' : IpManager)
    → allocate_normalized fuel now mac requested m ≡ returns (ok ip, m')
    → LeaseUntil m' mac ip (add_duration now m.lease_time) × SameElsewhere m mac m'
unfolding allocate_normalized
allocate_normalized-lease fuel now mac requested ip m m' h =
    elim (Option-cases (lookup m.leases mac)) [
      | inl nothing ↦
          let after : m' ≡ assign now mac ip m =
            allocate_new-assign fuel now mac requested ip m m'
              (unfold allocate_new in ground arith) in
          rw after (assign-lease now mac ip m)
      | inr (l, held) ↦
          let after : m' ≡ record m {
            leases = insert m.leases mac (record l { expires_at = add_duration now m.lease_time });
          } =
            ground arith in
          let same : l.ip ≡ ip = ground arith in
          rw (after, ← same) (prolong-lease (add_duration now m.lease_time) mac l m)
    ]

module _ (parse_mac : Text → Option (List ℕ)) where
  -- After `AllocateIP` succeeds for a client, `GetLease` returns the same address for every spelling
  -- of the client's hardware address until the lease time has passed, and then the expiry error.
  -- The leases of the other clients are as before.
  pub get_lease-allocate_ip :
      (fuel : ℕ) (now later : Time) (mac spelled other : Text) (requested ip : Ip)
      (m m' : IpManager)
      → allocate_ip parse_mac fuel now mac requested m ≡ returns (ok ip, m')
      → pool_mac parse_mac spelled ≡ pool_mac parse_mac mac
      → text_eq (pool_mac parse_mac mac) (pool_mac parse_mac other) ≡ false
      → (get_lease parse_mac later spelled m'
          ≡ (if ltb (add_duration now m.lease_time) later then err lease_expired else ok ip))
        × (get_lease parse_mac later other m' ≡ get_lease parse_mac later other m)
  unfolding allocate_ip get_lease
  get_lease-allocate_ip fuel now later mac spelled other requested ip m m' h same differs =
      let ((l, held, addr, expiry), elsewhere) =
        allocate_normalized-lease fuel now (pool_mac parse_mac mac) requested ip m m' h in
      (ground (arith, held, same), ground (arith, elsewhere (pool_mac parse_mac other) differs))

  -- A client that asks again gets the address that it has, whatever it requests and however much
  -- later, and the lease then runs from the new request.
  pub allocate_ip_again :
      (fuel fuel' : ℕ) (now later : Time) (mac : Text) (requested requested' ip : Ip)
      (m m' : IpManager)
      → allocate_ip parse_mac fuel now mac requested m ≡ returns (ok ip, m')
      → (m'' : IpManager) × (allocate_ip parse_mac fuel' later mac requested' m'
          ≡ returns (ok ip, m''))
        × LeaseUntil m'' (pool_mac parse_mac mac) ip (add_duration later m'.lease_time)
  unfolding allocate_ip
  allocate_ip_again fuel fuel' now later mac requested requested' ip m m' h =
      let ((l, held, addr, expiry), elsewhere) =
        allocate_normalized-lease fuel now (pool_mac parse_mac mac) requested ip m m' h in
      let m'' : IpManager = record m' {
        leases =
            insert m'.leases (pool_mac parse_mac mac)
              (record l { expires_at = add_duration later m'.lease_time });
      } in
      let run : allocate_normalized fuel' later (pool_mac parse_mac mac) requested' m'
          ≡ returns (ok ip, m'') =
        unfold allocate_normalized in ground arith in
      (
        m'',
        run,
        (allocate_normalized-lease fuel' later (pool_mac parse_mac mac) requested' ip m' m'' run).0,
      )
