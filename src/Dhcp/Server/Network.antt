-- ===== src/Dhcp/Server/Network.antt =====
-- The network configuration that the DHCP handler writes into a node (internal/dhcp/server.go).
use nodefoundry.Base.{
  ℕ, ◌≡◌, ◌≢◌, refl, sym, ap, ◌∙◌, true, false, Bool, arith, Text, text_eq, List, [], ◌∷◌, ◌++◌,
  ◌||◌, ◌==◌, ◌/◌, ◌%◌,
}
use nodefoundry.Model.{Node}
use nodefoundry.Dhcp.Ip.{Ip, ip_string, mask_string, hex_string, hex_byte, hex_digit, decimal}
use nodefoundry.Dhcp.Pool.{IpManager}
use nodefoundry.Dhcp.Server.{with_network}

has_dot : Text → Bool
has_dot [] = false
has_dot (c ∷ t) = c == b'.' || has_dot t

has_dot-append : (a b : Text) → has_dot (a ++ b'.' ∷ b) ≡ true
unfolding has_dot
has_dot-append [] b = refl
has_dot-append (c ∷ a) b = ground (arith, has_dot-append a b)

hex_digit-ne : (n : ℕ) → (hex_digit n == b'.') ≡ false
unfolding hex_digit
hex_digit-ne n = ground arith

has_dot-hex_digits : (a b : ℕ) (t : Text) → has_dot (hex_digit a ∷ hex_digit b ∷ t) ≡ has_dot t
unfolding has_dot
has_dot-hex_digits a b t = ground (arith, hex_digit-ne a, hex_digit-ne b)

has_dot-hex_string : (l : List ℕ) → has_dot (hex_string l) ≡ false
unfolding has_dot hex_byte hex_string
has_dot-hex_string [] = refl
has_dot-hex_string (x ∷ l) =
    has_dot-hex_digits (x / 16) (x % 16) (hex_string l) ∙ has_dot-hex_string l

has_dot-ip_string : (a b c d : ℕ) → has_dot (ip_string (a ∷ b ∷ c ∷ d ∷ [])) ≡ true
unfolding ip_string
has_dot-ip_string a b c d =
    has_dot-append (decimal a) (decimal b ++ b'.' ∷ (decimal c ++ b'.' ∷ decimal d))

with_network-mask :
    (m : IpManager) (ip : Ip) (n : Node) (a : ℕ) (rest : List ℕ)
    → m.netmask ≡ a ∷ rest
    → (with_network m ip n).netmask ≡ hex_string (a ∷ rest)
unfolding with_network mask_string text_eq
with_network-mask m ip n a rest e = ground arith

-- When a netmask is set, the handler stores its bytes in hexadecimal, such as ffffff00, and never
-- the dotted form.
pub with_network-netmask :
    (m : IpManager) (ip : Ip) (n : Node) (a b c d : ℕ)
    → m.netmask ≡ a ∷ b ∷ c ∷ d ∷ []
    → ((with_network m ip n).netmask ≡ hex_string m.netmask)
      × ((with_network m ip n).netmask ≢ ip_string m.netmask)
with_network-netmask m ip n a b c d e =
    let stored = with_network-mask m ip n a (b ∷ c ∷ d ∷ []) e in
    (
      stored ∙ ap hex_string (sym e),
      λ same.
          let dotless : has_dot (hex_string (a ∷ b ∷ c ∷ d ∷ [])) ≡ false =
            has_dot-hex_string (a ∷ b ∷ c ∷ d ∷ []) in
          let moved : hex_string (a ∷ b ∷ c ∷ d ∷ []) ≡ ip_string (a ∷ b ∷ c ∷ d ∷ []) =
            sym stored ∙ same ∙ ap ip_string e in
          let dotted = ap has_dot moved ∙ has_dot-ip_string a b c d in
          absurd (ground (arith, dotless, dotted)),
    )
