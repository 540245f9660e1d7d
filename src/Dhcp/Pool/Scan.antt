-- ===== src/Dhcp/Pool/Scan.antt =====
-- The loop of `AllocateIP` over the pool.
use nodefoundry.Base.{
  ℕ, zero, suc, ◌+◌, ◌%◌, ◌≤◌, ◌<◌, ◌≡◌, refl, true, false, Bool-cases, inl, inr, ◌⊎◌, Option, none,
  some, arith, leb,
}
use nodefoundry.Dhcp.Ip.{Ip, int_to_ip}
use nodefoundry.Dhcp.Pool.{IpManager, returns, is_ip_allocated, scan}

-- No address from `i` on and below `j` is free.
abbrev pub AllTaken : IpManager → ℕ → ℕ → Type 0
AllTaken m i j = (k : ℕ) → i ≤ k → k < j → is_ip_allocated m (int_to_ip k) ≡ true

-- The answer `none` for a full range, and else its first free address.
abbrev pub FirstFree : IpManager → ℕ → ℕ → Option Ip → Type 0
FirstFree m i e r =
    ((r ≡ none) × AllTaken m i (e + 1))
    ⊎ ((j : ℕ) × (r ≡ some (int_to_ip j))
        × (i ≤ j)
        × (j ≤ e)
        × (is_ip_allocated m (int_to_ip j) ≡ false)
        × AllTaken m i j)

AllTaken-cons :
    (m : IpManager) (i j : ℕ)
    → is_ip_allocated m (int_to_ip i) ≡ true
    → AllTaken m (i + 1) j
    → AllTaken m i j
AllTaken-cons m i j h t k a b = elim (Bool-cases (leb (i + 1) k)) [
  | inl above ↦ t k (ground arith) b
  | inr here ↦ let same : k ≡ i = ground arith in rw same h
]

FirstFree-cons :
    (m : IpManager) (i e : ℕ) (r : Option Ip)
    → is_ip_allocated m (int_to_ip i) ≡ true
    → FirstFree m (i + 1) e r
    → FirstFree m i e r
FirstFree-cons m i e r h (inl (full, taken)) = inl (full, AllTaken-cons m i (e + 1) h taken)
FirstFree-cons m i e r h (inr (j, found, above, below, free, taken)) =
    inr (j, found, omega arith, below, free, AllTaken-cons m i j h taken)

no_wrap : (i e : ℕ) → e < 4294967295 → leb i e ≡ true → (i + 1) % 4294967296 ≡ i + 1
no_wrap i e top h = let le : i ≤ e = ground arith in omega arith

-- With room for every address of the range the loop ends, at the first free address or at the end,
-- unless the range ends at the last address of all.
pub scan-FirstFree :
    (fuel : ℕ) (m : IpManager) (i e : ℕ)
    → e < 4294967295
    → i ≤ e + 1
    → e + 1 < i + fuel
    → (r : Option Ip) × (scan fuel m i e ≡ returns r) × FirstFree m i e r
unfolding scan
scan-FirstFree zero m i e top h f = absurd (omega arith)
scan-FirstFree (suc fuel) m i e top h f = elim (Bool-cases (leb i e)) [
  | inr past ↦ (none, rw past, inl (refl, λ k a b. absurd (ground arith)))
  | inl inside ↦ elim (Bool-cases (is_ip_allocated m (int_to_ip i))) [
    | inr free ↦ (
      some (int_to_ip i),
      rw (inside, free),
      inr (i, refl, omega arith, ground arith, free, λ k a b. absurd (omega arith)),
    )
    | inl taken ↦
        let (r, run, found) = scan-FirstFree fuel m (i + 1) e top (ground arith) (omega arith) in
        (r, rw (inside, taken, no_wrap i e top inside) run, FirstFree-cons m i e r taken found)
  ]
]

scan_zero :
    (fuel : ℕ) (m : IpManager)
    → is_ip_allocated m (int_to_ip 0) ≡ false
    → 0 < fuel
    → scan fuel m 0 4294967295 ≡ returns (some (int_to_ip 0))
unfolding scan
scan_zero zero m free f = absurd (omega arith)
scan_zero (suc fuel) m free f = rw free

-- A range that ends at 255.255.255.255 never ends the loop by its test: when every address of such a
-- pool is taken, the counter wraps to 0 and the client gets 0.0.0.0, which no pool that starts above
-- it holds.
pub scan_wraps :
    (fuel : ℕ) (m : IpManager) (i : ℕ)
    → i < 4294967296
    → AllTaken m i 4294967296
    → is_ip_allocated m (int_to_ip 0) ≡ false
    → 4294967296 < i + fuel
    → scan fuel m i 4294967295 ≡ returns (some (int_to_ip 0))
unfolding scan
scan_wraps zero m i h taken free f = absurd (omega arith)
scan_wraps (suc fuel) m i h taken free f = elim (Bool-cases (leb (i + 1) 4294967295)) [
  | inl more ↦
      let inside : leb i 4294967295 ≡ true = ground arith in
      let wrap : (i + 1) % 4294967296 ≡ i + 1 = ground arith in
      rw (inside, taken i (omega arith) h, wrap)
        (scan_wraps fuel m (i + 1) (ground arith) (λ k a b. taken k (omega arith) b) free
          (omega arith))
  | inr last ↦
      let inside : leb i 4294967295 ≡ true = ground arith in
      let wrap : (i + 1) % 4294967296 ≡ 0 = ground arith in
      rw (inside, taken i (omega arith) h, wrap) (scan_zero fuel m free (ground arith))
]
