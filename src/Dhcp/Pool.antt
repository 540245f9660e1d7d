-- ===== src/Dhcp/Pool.antt =====
-- internal/dhcp/ip_pool.go: the pool of addresses and the leases.
-- The mutex makes each method atomic, so a method is a function of the pool. `net.ParseIP` and
-- `net.ParseMAC` are parameters.
pub mod Scan
pub mod Consistency
pub mod Allocation
pub mod Leases
pub mod Histories
pub mod Faults
pub mod Samples
mod Tests
use nodefoundry.Base.{
  ◌≡◌, refl, ◌⊎◌, inl, inr, ℕ, zero, suc, ◌+◌, ◌*◌, ◌%◌, Bool, true, false, not, ◌&&◌, ◌||◌, Option,
  none, some, List, [], ◌∷◌, ltb, leb, if◌then◌else◌, Result, ok, err, Text, codes, text_eq, GoMap,
  lookup, insert, erase, times64, ℤ,
}
use nodefoundry.Model.{Time, add_duration}
use nodefoundry.Dhcp.Ip.{Ip, to4, is_unspecified, ip_to_int, int_to_ip, ip_string, hardware_string}

-- internal/dhcp/errors.go
pub data PoolError : Type 0 where
  invalid_ip_start invalid_ip_end invalid_netmask invalid_gateway invalid_dns : PoolError
  invalid_ip ip_pool_exhausted ip_not_allocated lease_not_found lease_expired : PoolError

pub record Lease : Type 0 where
  pub mac : Text
  pub ip : Ip
  pub expires_at : Time

-- `end` is a field name of the source; durations are nanoseconds.
pub record IpManager : Type 0 where
  pub start : Ip
  pub end_ip : Ip
  pub netmask : List ℕ
  pub gateway : Ip
  pub dns : List Ip
  pub lease_time : ℤ
  pub leases : GoMap Lease
  pub allocated : GoMap Text

-- A run of Go code: it returns, panics, or goes on longer than the fuel that it was given.
pub data Run {ℓ} (A : Type ℓ) : Type ℓ where
  returns : A → Run A
  panics : Run A
  runs_on : Run A

infixl 5 ◌>>=◌
abbrev pub ◌>>=◌ {ℓ κ} : {A : Type ℓ} {B : Type κ} → Run A → (A → Run B) → Run B
returns a >>= f = f a
panics >>= f = panics
runs_on >>= f = runs_on

pub Run-cases {ℓ} :
    {A : Type ℓ} (r : Run A) → ((a : A) × (r ≡ returns a)) ⊎ ((r ≡ panics) ⊎ (r ≡ runs_on))
Run-cases (returns a) = inl (a, refl)
Run-cases panics = inr (inl refl)
Run-cases runs_on = inr (inr refl)

-- `ipToInt`
unfoldable pub to_int : Ip → Run ℕ
to_int ip = elim (ip_to_int ip) [ none ↦ panics | some n ↦ returns n ]

-- `normalizeMAC`, over `net.ParseMAC`, whose error is `none`.
unfoldable pub pool_mac : (Text → Option (List ℕ)) → Text → Text
pool_mac parse_mac mac = elim (parse_mac mac) [ none ↦ mac | some hw ↦ hardware_string hw ]

-- The loop over the DNS servers in `NewIPManager`.
unfoldable pub parse_dns : (Text → Ip) → List Text → Result PoolError (List Ip)
unfolding to4
parse_dns parse_ip [] = ok []
parse_dns parse_ip (d ∷ rest) =
    let later = parse_dns parse_ip rest in
    if text_eq (parse_ip d) [] then err invalid_dns else elim later [
      | err e ↦ err e
      | ok ips ↦ if text_eq (to4 (parse_ip d)) [] then ok ips else ok (to4 (parse_ip d) ∷ ips)
    ]

-- `NewIPManager`, over `net.ParseIP`, whose failure is nil.
unfoldable pub new_ip_manager :
    (Text → Ip) → Text → Text → Text → Text → List Text → ℤ → Result PoolError IpManager
unfolding parse_dns times64
new_ip_manager parse_ip start end_ip netmask gateway dns lease_time_sec =
    if text_eq (parse_ip start) []
    then err invalid_ip_start
    else if text_eq (parse_ip end_ip) []
    then err invalid_ip_end
    else if text_eq (parse_ip netmask) []
    then err invalid_netmask
    else if not (text_eq gateway []) && text_eq (parse_ip gateway) []
    then err invalid_gateway
    else elim (parse_dns parse_ip dns) [
      | err e ↦ err e
      | ok dns_ips ↦ ok (record {
        start = to4 (parse_ip start);
        end_ip = to4 (parse_ip end_ip);
        netmask = to4 (parse_ip netmask);
        gateway = to4 (parse_ip gateway);
        dns = dns_ips;
        lease_time = times64 lease_time_sec 1000000000;
        leases = [];
        allocated = [];
      })
    ]

-- `isIPAllocated`
unfoldable pub is_ip_allocated : IpManager → Ip → Bool
is_ip_allocated m ip =
    if text_eq (to4 ip) []
    then false
    else elim (lookup m.allocated (ip_string (to4 ip))) [ none ↦ false | some _ ↦ true ]

-- `isIPInPool`
unfoldable pub is_ip_in_pool : IpManager → Ip → Run Bool
is_ip_in_pool m ip = if text_eq (to4 ip) [] then returns false else do
  ip_int ← to_int (to4 ip)
  start_int ← to_int m.start
  end_int ← to_int m.end_ip
  returns (leb start_int ip_int && leb ip_int end_int)

-- `allocateIP`
unfoldable pub assign : Time → Text → Ip → IpManager → IpManager
unfolding insert
assign now mac ip m = record m {
  leases =
      insert m.leases mac
        (record { mac = mac; ip = ip; expires_at = add_duration now m.lease_time });
  allocated = insert m.allocated (ip_string ip) mac;
}

-- The loop of `AllocateIP` over the pool: the first address that is not allocated, or none. The
-- counter is a uint32.
unfoldable pub scan : ℕ → IpManager → ℕ → ℕ → Run (Option Ip)
unfolding int_to_ip
scan zero m ip end_int = runs_on
scan (suc fuel) m ip end_int =
    let rest = scan fuel m ((ip + 1) % 4294967296) end_int in
    if leb ip end_int
    then if is_ip_allocated m (int_to_ip ip) then rest else returns (some (int_to_ip ip))
    else returns none

-- Whether `AllocateIP` grants the address that the client asked for.
unfoldable pub grants_request : IpManager → Ip → Run Bool
grants_request m requested =
    if text_eq requested [] || is_unspecified requested then returns false else do
      in_pool ← is_ip_in_pool m (to4 requested)
      returns (in_pool && not (is_ip_allocated m (to4 requested)))

-- `AllocateIP` for a normalised address that has no lease.
unfoldable pub allocate_new :
    ℕ → Time → Text → Ip → IpManager → Run (Result PoolError Ip × IpManager)
allocate_new fuel now mac requested m = do
  granted ← grants_request m requested
  if granted then returns (ok (to4 requested), assign now mac (to4 requested) m) else do
    start_int ← to_int m.start
    end_int ← to_int m.end_ip
    free ← scan fuel m start_int end_int
    elim free [
      | none ↦ returns (err ip_pool_exhausted, m)
      | some ip ↦ returns (ok ip, assign now mac ip m)
    ]

-- `AllocateIP` for a normalised address. `existing` is a pointer into the map, so its new time is in
-- the map.
unfoldable pub allocate_normalized :
    ℕ → Time → Text → Ip → IpManager → Run (Result PoolError Ip × IpManager)
unfolding allocate_new
allocate_normalized fuel now mac requested m = elim (lookup m.leases mac) [
  | some existing ↦ returns (
    ok existing.ip,
    record m {
      leases = insert m.leases mac (record existing { expires_at = add_duration now m.lease_time });
    },
  )
  | none ↦ allocate_new fuel now mac requested m
]

-- `RenewLease` for a normalised address.
unfoldable pub renew_normalized : Time → Text → IpManager → Option PoolError × IpManager
renew_normalized now mac m = elim (lookup m.leases mac) [
  | none ↦ (some lease_not_found, m)
  | some lease ↦ (
    none,
    record m {
      leases = insert m.leases mac (record lease { expires_at = add_duration now m.lease_time });
    },
  )
]

-- `ReleaseIP`
unfoldable pub release_ip : Ip → IpManager → Option PoolError × IpManager
release_ip ip m =
    if text_eq (to4 ip) []
    then (some invalid_ip, m)
    else elim (lookup m.allocated (ip_string (to4 ip))) [
      | none ↦ (some ip_not_allocated, m)
      | some mac ↦ (
        none,
        record m {
          leases = erase m.leases mac;
          allocated = erase m.allocated (ip_string (to4 ip));
        },
      )
    ]

module _ (parse_mac : Text → Option (List ℕ)) where
  unfoldable pub allocate_ip :
      ℕ → Time → Text → Ip → IpManager → Run (Result PoolError Ip × IpManager)
  unfolding allocate_normalized pool_mac
  allocate_ip fuel now mac requested m =
      allocate_normalized fuel now (pool_mac parse_mac mac) requested m

  -- `RenewLease`
  unfoldable pub renew_lease : Time → Text → IpManager → Option PoolError × IpManager
  unfolding renew_normalized pool_mac
  renew_lease now mac m = renew_normalized now (pool_mac parse_mac mac) m

  -- `GetLease`
  unfoldable pub get_lease : Time → Text → IpManager → Result PoolError Ip
  unfolding pool_mac
  get_lease now mac m = elim (lookup m.leases (pool_mac parse_mac mac)) [
    | none ↦ err lease_not_found
    | some lease ↦ if ltb lease.expires_at now then err lease_expired else ok lease.ip
  ]
