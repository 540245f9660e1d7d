-- ===== src/Agent.antt =====
-- internal/agent/netif.go and internal/agent/dispatcher.go, with the topics of internal/agent/mqtt.go:
-- how the agent on a machine finds its address, under which topics it talks, and how it dispatches
-- commands. What the system says of its interfaces, and what `json.Unmarshal` makes of a payload, are
-- arguments.
pub mod Settings
pub mod Machine
pub mod Client
pub mod Process
pub mod Address
pub mod Commands
mod Tests
use nodefoundry.Base.{
  ℕ, ◌-◌, Bool, true, ◌&&◌, ◌||◌, Option, none, some, List, [], ◌∷◌, ◌++◌, map, length, leb, ◌==◌,
  if◌then◌else◌, Result, ok, err, Text, codes, text_eq, GoMap, lookup, insert,
}
use nodefoundry.Model.{keep_hex, lower_hex}
use nodefoundry.Dhcp.Ip.{hardware_string}

-- `normalizeMAC` of the agent, whose loops are those of the server's.
unfoldable pub normalize_mac : Text → Text
normalize_mac mac = map lower_hex (keep_hex mac)

-- The loop of `isValidMAC`.
unfoldable pub all_lower_hex : Text → Bool
all_lower_hex [] = true
all_lower_hex (c ∷ rest) =
    ((leb b'0' c && leb c b'9') || (leb b'a' c && leb c b'f')) && all_lower_hex rest

-- `isValidMAC`: a text that passes the loop is ASCII, so its length is `len`.
unfoldable pub is_valid_mac : Text → Bool
unfolding all_lower_hex
is_valid_mac mac = length mac == 12 && all_lower_hex mac

-- `strings.ToUpper` of an ASCII character
unfoldable pub upper : ℕ → ℕ
upper c = if leb b'a' c && leb c b'z' then c - 32 else c

-- The loop of `FormatMAC`, on an even number of characters.
unfoldable pub format_pairs : Text → Text
unfolding upper
format_pairs (a ∷ b ∷ []) = upper a ∷ upper b ∷ []
format_pairs (a ∷ b ∷ c ∷ rest) = upper a ∷ upper b ∷ b':' ∷ format_pairs (c ∷ rest)
format_pairs _ = []

-- `FormatMAC` of an ASCII text
unfoldable pub format_mac : Text → Text
unfolding format_pairs
format_mac mac = if length mac == 12 then format_pairs mac else mac

-- What the agent reads of a `net.Interface`.
pub record Interface : Type 0 where
  pub is_loopback : Bool
  pub is_up : Bool
  pub hardware_addr : List ℕ

pub data AddressError : Type 0 where
  invalid_environment : Text → AddressError
  no_interfaces no_valid_interface : AddressError

-- The loop over the interfaces.
unfoldable pub first_valid : List Interface → Result AddressError Text
unfolding normalize_mac is_valid_mac
first_valid [] = err no_valid_interface
first_valid (i ∷ rest) =
    let later = first_valid rest in
    let mac = normalize_mac (hardware_string i.hardware_addr) in
    if i.is_loopback
    then later
    else if i.is_up
    then (if text_eq i.hardware_addr [] then later else if is_valid_mac mac then ok mac else later)
    else later

-- `GetMACAddress`; `none` is an error of `net.Interfaces`.
unfoldable pub get_mac_address : Text → Option (List Interface) → Result AddressError Text
unfolding first_valid
get_mac_address env_mac interfaces =
    if text_eq env_mac []
    then elim interfaces [ none ↦ err no_interfaces | some l ↦ first_valid l ]
    else if is_valid_mac (normalize_mac env_mac)
    then ok (normalize_mac env_mac)
    else err (invalid_environment env_mac)

-- The topic of `PublishStatus`, and the one that `onConnect` subscribes.
unfoldable pub status_topic : Text → Text
status_topic mac = codes "node/" ++ (mac ++ codes "/status")

unfoldable pub command_topic : Text → Text
command_topic mac = codes "node/" ++ (mac ++ codes "/command")

-- `command.Handler`: its name, and what `Execute` returns (`some` is an error).
pub record Handler (Args Error : Type 0) : Type 0 where
  pub name : Text
  pub execute : Args → Option Error

pub record CommandMessage (Args : Type 0) : Type 0 where
  pub command : Text
  pub args : Args

pub data DispatchError (Error : Type 0) : Type 0 where
  parse_failed : DispatchError Error
  unknown_command : Text → DispatchError Error
  command_failed : Text → Error → DispatchError Error

module _ {Args Error : Type 0} where
  -- `Register`
  unfoldable pub register :
      Handler Args Error → GoMap (Handler Args Error) → GoMap (Handler Args Error)
  register handler handlers = insert handlers handler.name handler

  -- `Dispatch`; `none` is a payload that does not parse.
  unfoldable pub dispatch :
      GoMap (Handler Args Error) → Option (CommandMessage Args) → Option (DispatchError Error)
  dispatch handlers none = some parse_failed
  dispatch handlers (some msg) = elim (lookup handlers msg.command) [
    | none ↦ some (unknown_command msg.command)
    | some handler ↦ elim (handler.execute msg.args) [
      | none ↦ none
      | some e ↦ some (command_failed msg.command e)
    ]
  ]
