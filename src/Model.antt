-- ===== src/Model.antt =====
-- internal/model/node.go: the node record, its states and their transitions, MAC addresses.
pub mod Lifecycle
pub mod Mac
mod Tests
use nodefoundry.Base.{
  ℕ, Bool, true, false, ◌&&◌, ◌||◌, ◌+◌, Option, none, some, List, [], ◌∷◌, map, leb, ◌==◌,
  if◌then◌else◌, Result, ok, err, Text, codes, text_eq, length, GoMap, lookup, ℤ, pos, negsuc, ◌-◌,
  suc,
}

-- A `time.Time`: nanoseconds; `0` is the zero time. Readings of `time.Now` are arguments.
abbrev pub Time : Type 0
Time = ℕ

-- `Time.Add`, of a duration in nanoseconds; a negative one reaches back 292 years at most, which no
-- clock of today brings to the zero time.
unfoldable pub add_duration : Time → ℤ → Time
add_duration t (pos d) = t + d
add_duration t (negsuc d) = t - suc d

pub record Node : Type 0 where
  pub mac : Text
  pub ip : Text
  pub netmask : Text
  pub gateway : Text
  pub dns : Text
  pub hostname : Text
  pub status : Text
  pub last_heartbeat : Time
  pub created_at : Time
  pub updated_at : Time
  pub extra : Text

abbrev pub state_discovered : Text
state_discovered = codes "discovered"

abbrev pub state_installing : Text
state_installing = codes "installing"

abbrev pub state_installed : Text
state_installed = codes "installed"

-- What `CanTransitionTo`, `Validate` and `NewNode` may return as an error.
pub data NodeError : Type 0 where
  invalid_status : Text → NodeError
  unknown_current_status : Text → NodeError
  invalid_status_transition : Text → Text → NodeError
  mac_required : NodeError
  invalid_mac_format : NodeError

abbrev pub valid_states : GoMap Bool
valid_states = (state_discovered, true) ∷ (state_installing, true) ∷ (state_installed, true) ∷ []

-- A missing key of a `map[string]bool` reads as false.
abbrev pub or_false : Option Bool → Bool
or_false none = false
or_false (some b) = b

unfoldable pub is_valid_status : Text → Bool
unfolding lookup
is_valid_status status = or_false (lookup valid_states status)

abbrev pub state_transitions : GoMap (List Text)
state_transitions =
    (state_discovered, state_installing ∷ [])
    ∷ (state_installing, state_installed ∷ [])
    ∷ (state_installed, [])
    ∷ []

-- The loop over `allowedStates`.
unfoldable pub has_state : List Text → Text → Bool
has_state [] status = false
has_state (allowed ∷ rest) status = text_eq allowed status || has_state rest status

-- The error of `CanTransitionTo`; `none` is nil.
unfoldable pub can_transition_to : Node → Text → Option NodeError
unfolding is_valid_status has_state lookup
can_transition_to n new_status =
    if is_valid_status new_status
    then if text_eq n.status new_status then none else elim (lookup state_transitions n.status) [
      | none ↦ some (unknown_current_status n.status)
      | some allowed_states ↦
          if has_state allowed_states new_status
          then none
          else some (invalid_status_transition n.status new_status)
    ]
    else some (invalid_status new_status)

unfoldable pub validate : Node → Option NodeError
unfolding is_valid_status
validate n =
    if text_eq n.mac []
    then some mac_required
    else if is_valid_status n.status
    then none
    else some (invalid_status n.status)

-- The test of the first loop of `NormalizeMAC`.
unfoldable pub is_hex_digit : ℕ → Bool
is_hex_digit c =
    (leb b'0' c && leb c b'9') || (leb b'a' c && leb c b'f') || (leb b'A' c && leb c b'F')

-- The first loop of `NormalizeMAC`.
unfoldable pub keep_hex : Text → Text
unfolding is_hex_digit
keep_hex [] = []
keep_hex (c ∷ rest) = let kept = keep_hex rest in if is_hex_digit c then c ∷ kept else kept

-- The body of its second loop; a byte in 'A'..'F' plus 32 does not wrap.
unfoldable pub lower_hex : ℕ → ℕ
lower_hex c = if leb b'A' c && leb c b'F' then c + 32 else c

unfoldable pub normalize_mac : Text → Text
unfolding keep_hex lower_hex
normalize_mac mac = map lower_hex (keep_hex mac)

-- The normalised text is ASCII, so `len` counts its characters.
unfoldable pub is_valid_mac : Text → Bool
unfolding normalize_mac
is_valid_mac mac = length (normalize_mac mac) == 12

-- `NewNode`, with the reading of the clock.
unfoldable pub new_node : Time → Text → Text → Result NodeError Node
unfolding is_valid_mac is_valid_status normalize_mac
new_node now mac status =
    if is_valid_mac mac
    then if is_valid_status status
      then ok (record {
        mac = normalize_mac mac;
        ip = [];
        netmask = [];
        gateway = [];
        dns = [];
        hostname = [];
        status = status;
        last_heartbeat = 0;
        created_at = now;
        updated_at = now;
        extra = [];
      })
      else err (invalid_status status)
    else err invalid_mac_format
