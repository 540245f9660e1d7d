-- ===== src/Dhcp/Pool/Consistency.antt =====
-- What holds of a pool between two calls: leases and allocations are two sides of one table.
use nodefoundry.Base.{
  ℕ, ◌≤◌, ◌<◌, ◌≡◌, refl, Bool-cases, inl, inr, none, some, arith, Text, text_eq, text_eq_iff,
  lookup, lookup-insert, erase, insert, lookup-erase,
}
use nodefoundry.Model.{Time, add_duration}
use nodefoundry.Dhcp.Ip.{Ip, int_to_ip, ip_string}
use nodefoundry.Dhcp.Pool.{Lease, IpManager, assign}

-- An address of the pool from `s` to `e`.
abbrev pub InPool : ℕ → ℕ → Ip → Type 0
InPool s e ip = (i : ℕ) × (s ≤ i) × (i ≤ e) × (ip ≡ int_to_ip i)

-- The pool runs from `s` to `e`; each lease is filed under its own address, is for an address of the
-- pool, and is the one that this address is allocated to; each allocation belongs to a lease.
pub record IsConsistent (s e : ℕ) (m : IpManager) : Type 0 where
  pub starts : m.start ≡ int_to_ip s
  pub ends : m.end_ip ≡ int_to_ip e
  pub start_fits : s < 4294967296
  pub end_fits : e < 4294967296
  pub lease_filed : (k : Text) (l : Lease) → lookup m.leases k ≡ some l → l.mac ≡ k
  pub lease_in_pool : (k : Text) (l : Lease) → lookup m.leases k ≡ some l → InPool s e l.ip
  pub lease_allocated :
      (k : Text) (l : Lease)
      → lookup m.leases k ≡ some l
      → lookup m.allocated (ip_string l.ip) ≡ some k
  pub allocated_leased :
      (a k : Text)
      → lookup m.allocated a ≡ some k
      → (l : Lease) × (lookup m.leases k ≡ some l) × (ip_string l.ip ≡ a)

module _ {s e : ℕ} {m : IpManager} (c : IsConsistent s e m) where
  -- A new lease of a free address of the pool, for a client without a lease.
  module _ (now : Time) (mac : Text) (ip : Ip) (pool : InPool s e ip)
      (no_lease : lookup m.leases mac ≡ none)
      (is_free : lookup m.allocated (ip_string ip) ≡ none) where
    abbrev new_lease : Lease
    new_lease = record { mac = mac; ip = ip; expires_at = add_duration now m.lease_time }

    assign-allocated_leased :
        (a k : Text)
        → lookup (assign now mac ip m).allocated a ≡ some k
        → (l : Lease) × (lookup (assign now mac ip m).leases k ≡ some l) × (ip_string l.ip ≡ a)
    unfolding assign
    assign-allocated_leased a k h = elim (Bool-cases (text_eq (ip_string ip) a)) [
      | inl new ↦ (
        new_lease,
        ground (
          arith,
          lookup-insert m.allocated (ip_string ip) a mac,
          lookup-insert m.leases mac k new_lease,
          text_eq_iff mac k,
        ),
        (text_eq_iff (ip_string ip) a).0 new,
      )
      | inr old ↦
          let (l, at, addr) =
            c.allocated_leased a k
              (ground (arith, lookup-insert m.allocated (ip_string ip) a mac)) in
          (l, ground (arith, lookup-insert m.leases mac k new_lease, text_eq_iff mac k), addr)
    ]

    assign-lease :
        (k : Text) (l : Lease)
        → lookup (assign now mac ip m).leases k ≡ some l
        → (l.mac ≡ k)
          × InPool s e l.ip
          × (lookup (assign now mac ip m).allocated (ip_string l.ip) ≡ some k)
    unfolding assign
    assign-lease k l h = elim (Bool-cases (text_eq mac k)) [
      | inl new ↦
          let same : new_lease ≡ l = ground (arith, lookup-insert m.leases mac k new_lease) in
          let key : mac ≡ k = (text_eq_iff mac k).0 new in
          rw (← same, ← key)
            (
              refl,
              pool,
              ground (
                arith,
                lookup-insert m.allocated (ip_string ip) (ip_string ip) mac,
                text_eq_iff (ip_string ip) (ip_string ip),
              ),
            )
      | inr old ↦
          let before : lookup m.leases k ≡ some l =
            ground (arith, lookup-insert m.leases mac k new_lease) in
          (
            c.lease_filed k l before,
            c.lease_in_pool k l before,
            ground (
              arith,
              c.lease_allocated k l before,
              lookup-insert m.allocated (ip_string ip) (ip_string l.ip) mac,
              text_eq_iff (ip_string ip) (ip_string l.ip),
            ),
          )
    ]

    pub assign-IsConsistent : IsConsistent s e (assign now mac ip m)
    assign-IsConsistent = record {
      starts = unfold assign in c.starts;
      ends = unfold assign in c.ends;
      start_fits = c.start_fits;
      end_fits = c.end_fits;
      lease_filed = λ k l h. (assign-lease k l h).0;
      lease_in_pool = λ k l h. (assign-lease k l h).1;
      lease_allocated = λ k l h. (assign-lease k l h).2;
      allocated_leased = assign-allocated_leased;
    }

  -- A lease of the pool with another expiry.
  module _ (k : Text) (l : Lease) (held : lookup m.leases k ≡ some l) (t : Time) where
    abbrev renewed : Lease
    renewed = record l { expires_at = t }

    renew-lease :
        (j : Text) (l' : Lease)
        → lookup (insert m.leases k renewed) j ≡ some l'
        → (l'.mac ≡ j) × InPool s e l'.ip × (lookup m.allocated (ip_string l'.ip) ≡ some j)
    renew-lease j l' h = elim (Bool-cases (text_eq k j)) [
      | inl new ↦
          let same : renewed ≡ l' = ground (arith, lookup-insert m.leases k j renewed) in
          rw (← same, ← (text_eq_iff k j).0 new)
            (c.lease_filed k l held, c.lease_in_pool k l held, c.lease_allocated k l held)
      | inr old ↦
          let before : lookup m.leases j ≡ some l' =
            ground (arith, lookup-insert m.leases k j renewed) in
          (c.lease_filed j l' before, c.lease_in_pool j l' before, c.lease_allocated j l' before)
    ]

    renew-allocated :
        (a j : Text)
        → lookup m.allocated a ≡ some j
        → (l' : Lease) × (lookup (insert m.leases k renewed) j ≡ some l') × (ip_string l'.ip ≡ a)
    renew-allocated a j h =
        let (l', at, addr) = c.allocated_leased a j h in
        elim (Bool-cases (text_eq k j)) [
          | inl new ↦
              let same : l ≡ l' = ground (arith, text_eq_iff k j) in
              (renewed, ground (arith, lookup-insert m.leases k j renewed), rw same addr)
          | inr old ↦ (l', ground (arith, lookup-insert m.leases k j renewed), addr)
        ]

    pub renew-IsConsistent : IsConsistent s e (record m { leases = insert m.leases k renewed })
    renew-IsConsistent = record {
      starts = c.starts;
      ends = c.ends;
      start_fits = c.start_fits;
      end_fits = c.end_fits;
      lease_filed = λ j l' h. (renew-lease j l' h).0;
      lease_in_pool = λ j l' h. (renew-lease j l' h).1;
      lease_allocated = λ j l' h. (renew-lease j l' h).2;
      allocated_leased = renew-allocated;
    }

  -- An allocation taken back, with its lease.
  module _ (a k : Text) (held : lookup m.allocated a ≡ some k) where
    released_allocated :
        (j : Text) (l : Lease)
        → lookup (erase m.leases k) j ≡ some l
        → (lookup m.leases j ≡ some l) × (lookup (erase m.allocated a) (ip_string l.ip) ≡ some j)
    released_allocated j l h =
        let before : lookup m.leases j ≡ some l = ground (arith, lookup-erase m.leases k j) in
        (
          before,
          ground (
            arith,
            c.lease_allocated j l before,
            lookup-erase m.allocated a (ip_string l.ip),
            lookup-erase m.leases k j,
            text_eq_iff a (ip_string l.ip),
            text_eq_iff k j,
          ),
        )

    released_leased :
        (b j : Text)
        → lookup (erase m.allocated a) b ≡ some j
        → (l : Lease) × (lookup (erase m.leases k) j ≡ some l) × (ip_string l.ip ≡ b)
    released_leased b j h =
        let before : lookup m.allocated b ≡ some j = ground (arith, lookup-erase m.allocated a b) in
        let (l, at, addr) = c.allocated_leased b j before in
        let (l', at', addr') = c.allocated_leased a k held in
        (
          l,
          ground (
            arith,
            lookup-erase m.allocated a b,
            lookup-erase m.leases k j,
            text_eq_iff k j,
            text_eq_iff a b,
            addr,
            addr',
            at,
            at',
          ),
          addr,
        )

    pub release-IsConsistent :
        IsConsistent s e (record m { leases = erase m.leases k; allocated = erase m.allocated a })
    release-IsConsistent = record {
      starts = c.starts;
      ends = c.ends;
      start_fits = c.start_fits;
      end_fits = c.end_fits;
      lease_filed = λ j l h. c.lease_filed j l (released_allocated j l h).0;
      lease_in_pool = λ j l h. c.lease_in_pool j l (released_allocated j l h).0;
      lease_allocated = λ j l h. (released_allocated j l h).1;
      allocated_leased = released_leased;
    }
