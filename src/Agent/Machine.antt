-- ===== src/Agent/Machine.antt =====
-- internal/agent/info: what the agent reports of its machine. What the system answers is an argument,
-- with its errors as `none`; of an address, `none` is one that is no `*net.IPNet` or has no IP.
use nodefoundry.Base.{
  ℕ, ◌≡◌, ◌≢◌, refl, ◌⊎◌, inl, inr, Bool, false, not, ◌&&◌, ◌||◌, Bool-cases, Option, none, some,
  List, [], ◌∷◌, ◌++◌, All, ap, ◌==◌, if◌then◌else◌, Text, codes, text_eq, text_eq_iff, arith, ℤ,
  pos,
}
use nodefoundry.Dhcp.Ip.{Ip, to4, ip_string}

abbrev v6_loopback : Ip
v6_loopback = 0 ∷ 0 ∷ 0 ∷ 0 ∷ 0 ∷ 0 ∷ 0 ∷ 0 ∷ 0 ∷ 0 ∷ 0 ∷ 0 ∷ 0 ∷ 0 ∷ 0 ∷ 1 ∷ []

-- `ip.IsLoopback()`: 127.0.0.0/8 or ::1
unfoldable pub is_loopback : Ip → Bool
unfolding to4
is_loopback ip = elim (to4 ip) [ [] ↦ text_eq ip v6_loopback | a ∷ rest ↦ a == 127 ]

-- The loop of `GetIP`.
unfoldable pub first_ip : List (Option Ip) → Text
unfolding is_loopback to4
first_ip [] = []
first_ip (none ∷ rest) = first_ip rest
first_ip (some ip ∷ rest) =
    let later = first_ip rest in
    if is_loopback ip then later else if text_eq (to4 ip) [] then later else ip_string (to4 ip)

-- `GetIP`
unfoldable pub get_ip : Option (List (Option Ip)) → Text
unfolding first_ip
get_ip none = []
get_ip (some addrs) = first_ip addrs

-- The loop of `GetInterfaceIP`.
unfoldable pub first_v4 : List (Option Ip) → Text
unfolding to4
first_v4 [] = []
first_v4 (none ∷ rest) = first_v4 rest
first_v4 (some ip ∷ rest) =
    let later = first_v4 rest in if text_eq (to4 ip) [] then later else ip_string (to4 ip)

-- `GetInterfaceIP`: the interface's addresses, if there is such an interface.
unfoldable pub get_interface_ip : Option (Option (List (Option Ip))) → Text
unfolding first_v4
get_interface_ip none = []
get_interface_ip (some none) = []
get_interface_ip (some (some addrs)) = first_v4 addrs

pub record NamedInterface : Type 0 where
  pub name : Text
  pub is_loopback_interface : Bool
  pub is_up : Bool

-- The loop of `GetDefaultInterface`.
unfoldable pub first_up : List NamedInterface → Text
first_up [] = []
first_up (i ∷ rest) =
    let later = first_up rest in
    if i.is_loopback_interface then later else if i.is_up then i.name else later

-- `GetDefaultInterface`
unfoldable pub get_default_interface : Option (List NamedInterface) → Text
unfolding first_up
get_default_interface none = []
get_default_interface (some interfaces) = first_up interfaces

-- `strings.Contains(s, c)` of one character
unfoldable pub contains_char : ℕ → Text → Bool
contains_char c [] = false
contains_char c (x ∷ rest) = let later = contains_char c rest in (x == c) || later

-- `IsIPAddress` and `IsIPv4`, over `net.ParseIP`
unfoldable pub is_ip_address : (Text → Ip) → Text → Bool
is_ip_address parse_ip s = not (text_eq (parse_ip s) [])

unfoldable pub is_ipv4 : (Text → Ip) → Text → Bool
unfolding contains_char
is_ipv4 parse_ip s = not (text_eq (parse_ip s) []) && contains_char b'.' s

-- `GetHostname`
unfoldable pub get_hostname : Option Text → Text
get_hostname none = codes "unknown"
get_hostname (some hostname) = hostname

-- `GetUptime`, of the fields of /proc/uptime; `to_seconds` is `int64(f + 0.5)`.
unfoldable pub get_uptime :
    {Float : Type 0} → (Text → Option Float) → (Float → ℤ) → Option (List Text) → ℤ
get_uptime parse_float to_seconds none = pos 0
get_uptime parse_float to_seconds (some []) = pos 0
get_uptime parse_float to_seconds (some (field ∷ rest)) = elim (parse_float field) [
  | none ↦ pos 0
  | some f ↦ to_seconds f
]

-- An address that a machine may report: IPv4, and not loopback.
abbrev pub IsUsable : Option Ip → Type 0
IsUsable a = (ip : Ip) × (a ≡ some ip) × (is_loopback ip ≡ false) × (to4 ip ≢ [])

-- What `GetIP` answers on a list of addresses.
abbrev pub FirstUsable : List (Option Ip) → Text → Type 0
FirstUsable l t =
    (All (λ a. ¬ (IsUsable a)) l × (t ≡ []))
    ⊎ ((before after : List (Option Ip)) × (ip : Ip) × (l ≡ before ++ some ip ∷ after)
        × All (λ a. ¬ (IsUsable a)) before
        × IsUsable (some ip)
        × (t ≡ ip_string (to4 ip)))

skips :
    (a : Option Ip) (l : List (Option Ip)) (t : Text)
    → ¬ (IsUsable a)
    → FirstUsable l t
    → FirstUsable (a ∷ l) t
skips a l t bad (inl (none_usable, nil)) = inl ((bad, none_usable), nil)
skips a l t bad (inr (before, after, ip, is, skipped, good, text)) =
    inr (a ∷ before, after, ip, ap (λ r. a ∷ r) is, (bad, skipped), good, text)

first_ip_lem : (l : List (Option Ip)) → FirstUsable l (first_ip l)
unfolding first_ip
first_ip_lem [] = inl (tt, refl)
first_ip_lem (none ∷ rest) =
    skips none rest (first_ip rest) (λ (ip, is, _, _). absurd (ground arith)) (first_ip_lem rest)
first_ip_lem (some ip ∷ rest) = elim (Bool-cases (is_loopback ip)) [
  | inl local ↦
      rw (local, first_ip)
        (skips (some ip) rest (first_ip rest) (λ (ip', is, far, _). absurd (ground arith))
          (first_ip_lem rest))
  | inr far ↦ elim (Bool-cases (text_eq (to4 ip) [])) [
    | inl nil ↦
        rw (far, nil, first_ip)
          (skips (some ip) rest (first_ip rest)
            (λ (ip', is, _, four). absurd (four (ground (arith, (text_eq_iff (to4 ip) []).0 nil))))
            (first_ip_lem rest))
    | inr four ↦ inr (
      [],
      rest,
      ip,
      refl,
      tt,
      (ip, refl, far, λ nil. absurd (ground (arith, text_eq_iff (to4 ip) []))),
      rw (far, four, first_ip) refl,
    )
  ]
]

-- `GetIP` returns the first address of the machine that is IPv4 and not loopback, in dotted form, and
-- the empty text when there is none.
pub get_ip_lem : (addrs : List (Option Ip)) → FirstUsable addrs (get_ip (some addrs))
unfolding get_ip
get_ip_lem addrs = first_ip_lem addrs
