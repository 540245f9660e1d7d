-- ===== src/Dhcp/Ip.antt =====
-- What internal/dhcp uses of Go's package net: `IP`, `IPMask` and `HardwareAddr` are lists of bytes,
-- and `[]` is nil.
pub mod Strings
pub mod Four
mod Tests
use nodefoundry.Base.{
  ℕ, zero, suc, ◌+◌, ◌*◌, ◌/◌, ◌%◌, Bool, ◌&&◌, ◌||◌, Option, none, some, List, [], ◌∷◌, ◌++◌, ltb,
  ◌==◌, if◌then◌else◌, Text, codes, text_eq, length, take, drop,
}

abbrev pub Ip : Type 0
Ip = List ℕ

abbrev pub v4_in_v6_prefix : List ℕ
v4_in_v6_prefix = 0 ∷ 0 ∷ 0 ∷ 0 ∷ 0 ∷ 0 ∷ 0 ∷ 0 ∷ 0 ∷ 0 ∷ 255 ∷ 255 ∷ []

-- `ip.To4()`
unfoldable pub to4 : Ip → Ip
to4 (a ∷ b ∷ c ∷ d ∷ []) = a ∷ b ∷ c ∷ d ∷ []
to4 ip = if length ip == 16 && text_eq (take 12 ip) v4_in_v6_prefix then drop 12 ip else []

abbrev pub v6_unspecified : Ip
v6_unspecified = 0 ∷ 0 ∷ 0 ∷ 0 ∷ 0 ∷ 0 ∷ 0 ∷ 0 ∷ 0 ∷ 0 ∷ 0 ∷ 0 ∷ 0 ∷ 0 ∷ 0 ∷ 0 ∷ []

-- `ip.IsUnspecified()`: 0.0.0.0, in four or sixteen bytes, or ::
unfoldable pub is_unspecified : Ip → Bool
unfolding to4
is_unspecified ip = text_eq (to4 ip) (0 ∷ 0 ∷ 0 ∷ 0 ∷ []) || text_eq ip v6_unspecified

-- `binary.BigEndian.Uint32(ip)`; `none` is its panic on fewer than four bytes.
unfoldable pub ip_to_int : Ip → Option ℕ
ip_to_int (a ∷ b ∷ c ∷ d ∷ _) = some (((a * 256 + b) * 256 + c) * 256 + d)
ip_to_int _ = none

-- `intToIP`, of a uint32
unfoldable pub int_to_ip : ℕ → Ip
int_to_ip n = (n / 16777216 % 256) ∷ (n / 65536 % 256) ∷ (n / 256 % 256) ∷ (n % 256) ∷ []

-- A byte in decimal.
unfoldable pub decimal : ℕ → Text
decimal n =
    if ltb n 10
    then (48 + n) ∷ []
    else if ltb n 100
    then (48 + n / 10) ∷ (48 + n % 10) ∷ []
    else (48 + n / 100) ∷ (48 + n / 10 % 10) ∷ (48 + n % 10) ∷ []

-- `ip.String()` of an address that `To4` returned: four bytes or nil.
unfoldable pub ip_string : Ip → Text
unfolding decimal
ip_string (a ∷ b ∷ c ∷ d ∷ []) =
    decimal a ++ b'.' ∷ (decimal b ++ b'.' ∷ (decimal c ++ b'.' ∷ decimal d))
ip_string _ = codes "<nil>"

-- A hexadecimal digit, as `IPMask` and `HardwareAddr` print it.
unfoldable pub hex_digit : ℕ → ℕ
hex_digit n = if ltb n 10 then 48 + n else 87 + n

unfoldable pub hex_byte : ℕ → Text
unfolding hex_digit
hex_byte n = hex_digit (n / 16) ∷ hex_digit (n % 16) ∷ []

unfoldable pub hex_string : List ℕ → Text
unfolding hex_byte
hex_string [] = []
hex_string (x ∷ xs) = hex_byte x ++ hex_string xs

-- `mask.String()`: the bytes in hexadecimal, "no punctuation".
unfoldable pub mask_string : List ℕ → Text
unfolding hex_string
mask_string [] = codes "<nil>"
mask_string (x ∷ xs) = hex_string (x ∷ xs)

-- `hw.String()` of a hardware address: the bytes in hexadecimal, with colons between.
unfoldable pub hardware_string : List ℕ → Text
unfolding hex_byte
hardware_string [] = []
hardware_string (x ∷ []) = hex_byte x
hardware_string (x ∷ y ∷ r) = hex_byte x ++ b':' ∷ hardware_string (y ∷ r)
