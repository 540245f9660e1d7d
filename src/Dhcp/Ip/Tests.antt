-- ===== src/Dhcp/Ip/Tests.antt =====
-- Addresses at concrete values.
use nodefoundry.Base.{◌≡◌, refl, codes, ℕ, ◌+◌, ◌*◌, [], ◌∷◌}
use nodefoundry.Dhcp.Ip.{ip_string, int_to_ip, mask_string, hardware_string}

-- 192.168.1.100, written in two ways.
abbrev number : ℕ
number = 3232235876

abbrev from_bytes : ℕ
from_bytes = 192 * 16777216 + 168 * 65536 + 1 * 256 + 100

printed : ip_string (int_to_ip 3232235876) ≡ codes "192.168.1.100"
unfolding ip_string int_to_ip
printed = refl

printed_mask : mask_string (255 ∷ 255 ∷ 255 ∷ 0 ∷ []) ≡ codes "ffffff00"
unfolding mask_string
printed_mask = refl

printed_hardware : hardware_string (170 ∷ 187 ∷ 1 ∷ []) ≡ codes "aa:bb:01"
unfolding hardware_string
printed_hardware = refl
