-- ===== src/Model/Mac.antt =====
-- `NormalizeMAC` and `IsValidMAC` of internal/model/node.go.
use nodefoundry.Base.{
  ℕ, ◌≡◌, refl, Bool, true, false, Bool-cases, inl, inr, [], ◌∷◌, ◌++◌, arith, ◌==◌, leb, ◌&&◌,
  ◌||◌, Text, length, All, ap, ==_iff,
}
use mathlib.Core.List.{map-append}
use nodefoundry.Model.{is_hex_digit, keep_hex, lower_hex, normalize_mac, is_valid_mac}

-- A digit that `NormalizeMAC` may leave in its result.
abbrev pub is_lower_hex : ℕ → Bool
is_lower_hex c = (leb b'0' c && leb c b'9') || (leb b'a' c && leb c b'f')

lower_hex-is_lower_hex : (c : ℕ) → is_hex_digit c ≡ true → is_lower_hex (lower_hex c) ≡ true
unfolding is_hex_digit lower_hex
lower_hex-is_lower_hex c h = ground arith

lower_hex_fixed : (c : ℕ) → is_lower_hex c ≡ true → lower_hex c ≡ c
unfolding lower_hex
lower_hex_fixed c h = ground arith

is_hex_digit-lower : (c : ℕ) → is_lower_hex c ≡ true → is_hex_digit c ≡ true
unfolding is_hex_digit
is_hex_digit-lower c h = ground arith

-- Every character of the result is one of 0-9 and a-f.
pub normalize_mac-All : (mac : Text) → All (λ c. is_lower_hex c ≡ true) (normalize_mac mac)
unfolding keep_hex normalize_mac
normalize_mac-All [] = tt
normalize_mac-All (c ∷ mac) = elim (Bool-cases (is_hex_digit c)) [
  | inl h ↦ rw h (lower_hex-is_lower_hex c h, normalize_mac-All mac)
  | inr h ↦ rw h (normalize_mac-All mac)
]

-- A text of such characters is left as it is.
pub normalize_mac_fixed :
    (mac : Text) → All (λ c. is_lower_hex c ≡ true) mac → normalize_mac mac ≡ mac
unfolding keep_hex normalize_mac
normalize_mac_fixed [] h = refl
normalize_mac_fixed (c ∷ mac) h =
    simp (is_hex_digit-lower c h.0, lower_hex_fixed c h.0)
      (ap (λ t. c ∷ t) (normalize_mac_fixed mac h.1))

-- Normalising twice is normalising once.
pub normalize_mac_idem : (mac : Text) → normalize_mac (normalize_mac mac) ≡ normalize_mac mac
normalize_mac_idem mac = normalize_mac_fixed (normalize_mac mac) (normalize_mac-All mac)

keep_hex-append : (a b : Text) → keep_hex (a ++ b) ≡ keep_hex a ++ keep_hex b
unfolding keep_hex
keep_hex-append [] b = refl
keep_hex-append (c ∷ a) b = ground (arith, keep_hex-append a b)

pub normalize_mac-append :
    (a b : Text) → normalize_mac (a ++ b) ≡ normalize_mac a ++ normalize_mac b
unfolding normalize_mac
normalize_mac-append a b = rw (keep_hex-append a b) (map-append lower_hex (keep_hex a) (keep_hex b))

normalize_mac_other :
    (c : ℕ) (b : Text) → is_hex_digit c ≡ false → normalize_mac (c ∷ b) ≡ normalize_mac b
unfolding normalize_mac keep_hex
normalize_mac_other c b h = rw h

-- Any separator may stand anywhere in an address: a character that is no hexadecimal digit changes
-- neither its normal form nor whether it is accepted.
pub mac_separator :
    (a b : Text) (c : ℕ)
    → is_hex_digit c ≡ false
    → (normalize_mac (a ++ c ∷ b) ≡ normalize_mac (a ++ b))
      × (is_valid_mac (a ++ c ∷ b) ≡ is_valid_mac (a ++ b))
unfolding is_valid_mac
mac_separator a b c h =
    let same : normalize_mac (a ++ c ∷ b) ≡ normalize_mac (a ++ b) =
      rw (normalize_mac-append a (c ∷ b), normalize_mac_other c b h, normalize_mac-append a b) in
    (same, ap (λ t. length t == 12) same)

-- Accepted addresses, and only those, have a normal form of twelve digits 0-9, a-f, and that form
-- is accepted and is its own normal form.
pub is_valid_mac-normalize_mac :
    (mac : Text)
    → is_valid_mac mac ≡ true
    → (length (normalize_mac mac) ≡ 12)
      × All (λ c. is_lower_hex c ≡ true) (normalize_mac mac)
      × (is_valid_mac (normalize_mac mac) ≡ true)
      × (normalize_mac (normalize_mac mac) ≡ normalize_mac mac)
unfolding is_valid_mac
is_valid_mac-normalize_mac mac h =
    ((==_iff _ _).0 h, normalize_mac-All mac, rw (normalize_mac_idem mac) h, normalize_mac_idem mac)
