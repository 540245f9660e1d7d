-- ===== src/Dhcp/Pool/Samples.antt =====
-- Small pools, for the tests of the pool and of the server.
use nodefoundry.Base.{
  Option, none, some, List, [], ◌∷◌, ℕ, refl, Text, codes, text_eq, if◌then◌else◌, lookup, arith,
  pos,
}
use nodefoundry.Dhcp.Ip.{Ip, int_to_ip}
use nodefoundry.Dhcp.Pool.{IpManager, Lease}
use nodefoundry.Dhcp.Pool.Consistency.{IsConsistent}

-- 10.0.0.1, the first address of the pool, and 10.0.0.2, the last.
abbrev pub first : ℕ
first = 167772161

abbrev pub last : ℕ
last = 167772162

-- `net.ParseIP` and `net.ParseMAC` on the texts of the tests.
abbrev pub parse_ip : Text → Ip
parse_ip t =
    if text_eq t (codes "10.0.0.1")
    then 10 ∷ 0 ∷ 0 ∷ 1 ∷ []
    else if text_eq t (codes "10.0.0.2")
    then 10 ∷ 0 ∷ 0 ∷ 2 ∷ []
    else if text_eq t (codes "255.255.255.0")
    then 255 ∷ 255 ∷ 255 ∷ 0 ∷ []
    else if text_eq t (codes "::1")
    then 0 ∷ 0 ∷ 0 ∷ 0 ∷ 0 ∷ 0 ∷ 0 ∷ 0 ∷ 0 ∷ 0 ∷ 0 ∷ 0 ∷ 0 ∷ 0 ∷ 0 ∷ 1 ∷ []
    else []

abbrev pub parse_mac : Text → Option (List ℕ)
parse_mac t =
    if text_eq t (codes "0A-00-00-00-00-01") then some (10 ∷ 0 ∷ 0 ∷ 0 ∷ 0 ∷ 1 ∷ []) else none

abbrev pub client_a : Text
client_a = codes "0a:00:00:00:00:01"

abbrev pub client_b : Text
client_b = codes "0a:00:00:00:00:02"

abbrev pub fresh_pool : IpManager
fresh_pool = record {
  start = 10 ∷ 0 ∷ 0 ∷ 1 ∷ [];
  end_ip = 10 ∷ 0 ∷ 0 ∷ 2 ∷ [];
  netmask = 255 ∷ 255 ∷ 255 ∷ 0 ∷ [];
  gateway = 10 ∷ 0 ∷ 0 ∷ 2 ∷ [];
  dns = [];
  lease_time = pos 60000000000;
  leases = [];
  allocated = [];
}

pub fresh_pool-IsConsistent : IsConsistent first last fresh_pool
unfolding lookup
fresh_pool-IsConsistent = record {
  starts = unfold int_to_ip in refl;
  ends = unfold int_to_ip in refl;
  start_fits = omega arith;
  end_fits = omega arith;
  lease_filed = λ t x h. absurd (ground arith);
  lease_in_pool = λ t x h. absurd (ground arith);
  lease_allocated = λ t x h. absurd (ground arith);
  allocated_leased = λ a t h. absurd (ground arith);
}

abbrev pub lease_a : Lease
lease_a = record { mac = client_a; ip = 10 ∷ 0 ∷ 0 ∷ 1 ∷ []; expires_at = 60000000007 }

-- The pool after client a got the first address at time 7.
abbrev pub pool_a : IpManager
pool_a = record fresh_pool {
  leases = (client_a, lease_a) ∷ [];
  allocated = (codes "10.0.0.1", client_a) ∷ [];
}

-- And after client b got the other at time 9.
abbrev pub lease_b : Lease
lease_b = record { mac = client_b; ip = 10 ∷ 0 ∷ 0 ∷ 2 ∷ []; expires_at = 60000000009 }

abbrev pub pool_b : IpManager
pool_b = record fresh_pool {
  leases = (client_b, lease_b) ∷ (client_a, lease_a) ∷ [];
  allocated = (codes "10.0.0.2", client_b) ∷ (codes "10.0.0.1", client_a) ∷ [];
}
