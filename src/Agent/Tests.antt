-- ===== src/Agent/Tests.antt =====
-- The agent at concrete values.
use nodefoundry.Base.{◌≡◌, refl, ok, some, none, Text, true, false, [], ◌∷◌, codes, text_eq}
use nodefoundry.Model
use nodefoundry.Dhcp.Ip.{hardware_string}
use nodefoundry.Mqtt.{StatusMessage}
use nodefoundry.Agent.{
  Interface, Handler, CommandMessage, normalize_mac, format_mac, get_mac_address, command_topic,
}

abbrev loopback : Interface
loopback = record { is_loopback = true; is_up = true; hardware_addr = [] }

abbrev ethernet : Interface
ethernet = record {
  is_loopback = false;
  is_up = true;
  hardware_addr = 0xaa ∷ 0xbb ∷ 0xcc ∷ 0xdd ∷ 0xee ∷ 0xff ∷ [];
}

found : get_mac_address [] (some (loopback ∷ ethernet ∷ [])) ≡ ok (codes "aabbccddeeff")
unfolding get_mac_address text_eq normalize_mac Model.keep_hex Model.lower_hex hardware_string
found = refl

abbrev alive : StatusMessage
alive = record { status = codes "installing"; ip = []; hostname = [] }

formatted : format_mac (codes "aabbccddeeff") ≡ codes "AA:BB:CC:DD:EE:FF"
unfolding format_mac
formatted = refl

subscribed : command_topic (codes "aabbccddeeff") ≡ codes "node/aabbccddeeff/command"
unfolding command_topic
subscribed = refl

abbrev reboot : Handler Text Text
reboot = record { name = codes "reboot"; execute = λ args. none }

abbrev order : CommandMessage Text
order = record { command = codes "reboot"; args = [] }
