-- ===== src/Dhcp/Ip/Strings.antt =====
-- An IPv4 address can be read back from its number and from its text.
use nodefoundry.Base.{
  ℕ, ◌+◌, ◌-◌, ◌*◌, ◌/◌, ◌%◌, ◌<◌, ◌≡◌, ap, some, [], ◌∷◌, ◌++◌, arith, ◌==◌, if◌then◌else◌, Text,
}
use nodefoundry.Dhcp.Ip.{ip_to_int, int_to_ip, decimal, ip_string}

pub ip_to_int-int_to_ip : (n : ℕ) → n < 4294967296 → ip_to_int (int_to_ip n) ≡ some n
unfolding ip_to_int int_to_ip
ip_to_int-int_to_ip n h = ap some (omega arith)

-- The digits of a decimal number.
value : ℕ → Text → ℕ
value acc [] = acc
value acc (c ∷ t) = value (acc * 10 + (c - 48)) t

value-decimal : (n : ℕ) → n < 256 → value 0 (decimal n) ≡ n
unfolding value decimal
value-decimal n h = ground arith

-- The part of a text before the first dot, and the part behind it.
upto : Text → Text
upto [] = []
upto (c ∷ t) = let rest = upto t in if c == b'.' then [] else c ∷ rest

behind : Text → Text
behind [] = []
behind (c ∷ t) = let rest = behind t in if c == b'.' then t else rest

upto-decimal : (n : ℕ) (t : Text) → n < 256 → upto (decimal n ++ b'.' ∷ t) ≡ decimal n
unfolding upto decimal
upto-decimal n t h = ground arith

behind-decimal : (n : ℕ) (t : Text) → n < 256 → behind (decimal n ++ b'.' ∷ t) ≡ t
unfolding behind decimal
behind-decimal n t h = ground arith

decimal-eq : (a b : ℕ) → a < 256 → b < 256 → decimal a ≡ decimal b → a ≡ b
decimal-eq a b ha hb h = cc (value-decimal a ha, value-decimal b hb, ap (value 0) h)

decimal-eq_first :
    (a b : ℕ) (s t : Text)
    → a < 256
    → b < 256
    → decimal a ++ b'.' ∷ s ≡ decimal b ++ b'.' ∷ t
    → (a ≡ b) × (s ≡ t)
decimal-eq_first a b s t ha hb h = (
  decimal-eq a b ha hb (cc (upto-decimal a s ha, upto-decimal b t hb, ap upto h)),
  cc (behind-decimal a s ha, behind-decimal b t hb, ap behind h),
)

dotted : ℕ → ℕ → ℕ → ℕ → Text
dotted a b c d = decimal a ++ b'.' ∷ (decimal b ++ b'.' ∷ (decimal c ++ b'.' ∷ decimal d))

dotted-eq :
    (a b c d a' b' c' d' : ℕ)
    → (a < 256) × (b < 256) × (c < 256) × (d < 256)
    → (a' < 256) × (b' < 256) × (c' < 256) × (d' < 256)
    → dotted a b c d ≡ dotted a' b' c' d'
    → (a ≡ a') × (b ≡ b') × (c ≡ c') × (d ≡ d')
unfolding dotted
dotted-eq a b c d a' b' c' d' (ha, hb, hc, hd) (ka, kb, kc, kd) h =
    let (ea, r) = decimal-eq_first a a' _ _ ha ka h in
    let (eb, s) = decimal-eq_first b b' _ _ hb kb r in
    let (ec, t) = decimal-eq_first c c' _ _ hc kc s in (ea, eb, ec, decimal-eq d d' hd kd t)

-- Two 32-bit numbers whose addresses print alike are one number.
pub ip_string-injective :
    (m n : ℕ)
    → m < 4294967296
    → n < 4294967296
    → ip_string (int_to_ip m) ≡ ip_string (int_to_ip n)
    → m ≡ n
unfolding ip_string int_to_ip dotted
ip_string-injective m n hm hn h =
    let (ea, eb, ec, ed) =
      dotted-eq (m / 16777216 % 256) (m / 65536 % 256) (m / 256 % 256) (m % 256)
        (n / 16777216 % 256) (n / 65536 % 256) (n / 256 % 256) (n % 256) (omega arith) (omega arith)
        h in
    omega arith
