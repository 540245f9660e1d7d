-- ===== src/Dhcp/Pool/Allocation.antt =====
-- `AllocateIP` of internal/dhcp/ip_pool.go on every branch.
use nodefoundry.Base.{
  ℕ, ◌+◌, ◌≤◌, ◌<◌, ◌≡◌, refl, ◌⊎◌, Bool, true, false, Bool-cases, inl, inr, none, arith, ok, err,
  Text, text_eq, lookup, leb, not, ◌&&◌, ◌||◌, [], some, Option-cases,
}
use nodefoundry.Model.{Time}
use nodefoundry.Dhcp.Ip.{Ip, to4, int_to_ip, ip_string, is_unspecified}
use nodefoundry.Dhcp.Ip.Four.{IsBytes, to4_cases}
use nodefoundry.Dhcp.Ip.Strings.{ip_to_int-int_to_ip}
use nodefoundry.Dhcp.Pool.{
  ip_pool_exhausted, IpManager, returns, to_int, is_ip_allocated, is_ip_in_pool, grants_request,
  allocate_new, assign,
}
use nodefoundry.Dhcp.Pool.Scan.{AllTaken, scan-FirstFree}
use nodefoundry.Dhcp.Pool.Consistency.{InPool, IsConsistent}

to4-int_to_ip : (n : ℕ) → to4 (int_to_ip n) ≡ int_to_ip n
unfolding to4 int_to_ip
to4-int_to_ip n = refl

int_to_ip_not_nil : (n : ℕ) → text_eq (int_to_ip n) [] ≡ false
unfolding text_eq int_to_ip
int_to_ip_not_nil n = refl

to_int-int_to_ip : (n : ℕ) → n < 4294967296 → to_int (int_to_ip n) ≡ returns n
unfolding to_int
to_int-int_to_ip n h = rw (ip_to_int-int_to_ip n h, to_int)

-- `isIPAllocated` reads the map of allocations.
is_ip_allocated-int_to_ip :
    (m : IpManager) (n : ℕ)
    → is_ip_allocated m (int_to_ip n) ≡ false
    → lookup m.allocated (ip_string (int_to_ip n)) ≡ none
unfolding is_ip_allocated
is_ip_allocated-int_to_ip m n h = ground (arith, to4-int_to_ip n, int_to_ip_not_nil n)

module _ {s e : ℕ} {m : IpManager} (c : IsConsistent s e m) where
  pub start_int : to_int m.start ≡ returns s
  start_int = rw c.starts (to_int-int_to_ip s c.start_fits)

  pub end_int : to_int m.end_ip ≡ returns e
  end_int = rw c.ends (to_int-int_to_ip e c.end_fits)

  is_ip_in_pool-int_to_ip :
      (n : ℕ) → n < 4294967296 → is_ip_in_pool m (int_to_ip n) ≡ returns (leb s n && leb n e)
  unfolding is_ip_in_pool
  is_ip_in_pool-int_to_ip n h =
      rw (to4-int_to_ip n, int_to_ip_not_nil n, to_int-int_to_ip n h, start_int, end_int)

  is_ip_in_pool-nil : is_ip_in_pool m [] ≡ returns false
  unfolding is_ip_in_pool to4 text_eq
  is_ip_in_pool-nil = refl

  -- The request is granted for a free address of the pool only.
  grants_request_lem :
      (requested : Ip)
      → IsBytes requested
      → (g : Bool) × (grants_request m requested ≡ returns g)
        × (g ≡ true
            → InPool s e (to4 requested) × (lookup m.allocated (ip_string (to4 requested)) ≡ none))
  unfolding grants_request
  grants_request_lem requested b =
      elim (Bool-cases (text_eq requested [] || is_unspecified requested)) [
        | inl skip ↦ (false, rw skip, λ h. absurd (cc))
        | inr asked ↦ elim (to4_cases requested b) [
          | inl nil ↦ (false, rw (asked, nil, is_ip_in_pool-nil), λ h. absurd (cc))
          | inr (n, fits, is) ↦ (
            leb s n && leb n e && not (is_ip_allocated m (int_to_ip n)),
            rw (asked, is, is_ip_in_pool-int_to_ip n fits),
            λ h. (
              (n, ground arith, ground arith, is),
              rw is (is_ip_allocated-int_to_ip m n (ground arith)),
            ),
          )
        ]
      ]

  -- What a client without a lease gets: a free address of the pool, and a lease on it; or, when all
  -- addresses of the pool are taken, the error, and nothing changes.
  pub allocate_new_lem :
      (fuel : ℕ) (now : Time) (mac : Text) (requested : Ip)
      → e < 4294967295
      → s ≤ e + 1
      → e + 1 < s + fuel
      → IsBytes requested
      → ((ip : Ip) × (allocate_new fuel now mac requested m ≡ returns (ok ip, assign now mac ip m))
          × InPool s e ip
          × (lookup m.allocated (ip_string ip) ≡ none))
        ⊎ ((allocate_new fuel now mac requested m ≡ returns (err ip_pool_exhausted, m))
            × AllTaken m s (e + 1))
  unfolding allocate_new
  allocate_new_lem fuel now mac requested top order enough b =
      let (g, run, granted) = grants_request_lem requested b in
      elim (Bool-cases g) [
        | inl yes_granted ↦
            inl (
              to4 requested,
              rw (run, yes_granted),
              (granted yes_granted).0,
              (granted yes_granted).1,
            )
        | inr refused ↦
            let (r, scanned, found) = scan-FirstFree fuel m s e top order enough in
            elim found [
              | inl (full, taken) ↦
                  inr (rw (run, refused, start_int, end_int, scanned, full), taken)
              | inr (j, hit, above, below, is_free, taken) ↦ inl (
                int_to_ip j,
                rw (run, refused, start_int, end_int, scanned, hit),
                (j, above, below, refl),
                is_ip_allocated-int_to_ip m j is_free,
              )
            ]
      ]

pub allocated-int_to_ip :
    (m : IpManager) (n : ℕ)
    → is_ip_allocated m (int_to_ip n) ≡ true
    → (k : Text) × (lookup m.allocated (ip_string (int_to_ip n)) ≡ some k)
unfolding is_ip_allocated
allocated-int_to_ip m n h = elim (Option-cases (lookup m.allocated (ip_string (int_to_ip n)))) [
  | inl nothing ↦ absurd (ground (arith, to4-int_to_ip n, int_to_ip_not_nil n))
  | inr held ↦ held
]
