-- ===== src/Dhcp/Ip/Four.antt =====
-- `To4` gives nil or the address of a 32-bit number.
use nodefoundry.Base.{
  ℕ, zero, suc, ◌+◌, ◌-◌, ◌*◌, ◌<◌, ◌≡◌, refl, ◌⊎◌, inl, inr, Bool-cases, List, [], ◌∷◌, arith, All,
  length, drop, take, text_eq, ◌==◌, ◌&&◌, if◌then◌else◌,
}
use nodefoundry.Dhcp.Ip.{Ip, to4, int_to_ip, v4_in_v6_prefix}

abbrev pub IsBytes : List ℕ → Type 0
IsBytes = All (λ x. x < 256)

IsBytes-drop : (n : ℕ) (l : List ℕ) → IsBytes l → IsBytes (drop n l)
IsBytes-drop zero l h = h
IsBytes-drop (suc n) [] h = h
IsBytes-drop (suc n) (x ∷ l) h = IsBytes-drop n l h.1

length-drop : (n : ℕ) (l : List ℕ) → length (drop n l) ≡ length l - n
length-drop zero l = omega arith
length-drop (suc n) [] = omega arith
length-drop (suc n) (x ∷ l) = omega (arith, length-drop n l)

abbrev IsAddress : Ip → Type 0
IsAddress ip = (n : ℕ) × (n < 4294967296) × (ip ≡ int_to_ip n)

four_bytes : (l : List ℕ) → length l ≡ 4 → IsBytes l → IsAddress l
unfolding int_to_ip
four_bytes [] e h = absurd (omega arith)
four_bytes (a ∷ []) e h = absurd (omega arith)
four_bytes (a ∷ b ∷ []) e h = absurd (omega arith)
four_bytes (a ∷ b ∷ c ∷ []) e h = absurd (omega arith)
four_bytes (a ∷ b ∷ c ∷ d ∷ []) e (ha, (hb, (hc, (hd, _)))) =
    (((a * 256 + b) * 256 + c) * 256 + d, omega arith, ground arith)
four_bytes (a ∷ b ∷ c ∷ d ∷ x ∷ l) e h = absurd (omega arith)

mapped :
    (ip : Ip)
    → IsBytes ip
    → let four =
        if length ip == 16 && text_eq (take 12 ip) v4_in_v6_prefix then drop 12 ip else [] in
      (four ≡ []) ⊎ IsAddress four
mapped ip h = elim (Bool-cases (length ip == 16 && text_eq (take 12 ip) v4_in_v6_prefix)) [
  | inl e ↦
      inr
        (rw e (four_bytes (drop 12 ip) (ground (arith, length-drop 12 ip)) (IsBytes-drop 12 ip h)))
  | inr e ↦ inl (rw e)
]

pub to4_cases : (ip : Ip) → IsBytes ip → (to4 ip ≡ []) ⊎ IsAddress (to4 ip)
unfolding to4
to4_cases (a ∷ b ∷ c ∷ d ∷ []) h = inr (four_bytes (a ∷ b ∷ c ∷ d ∷ []) refl h)
to4_cases ip h = mapped ip h
