-- ===== src/Agent/Address.antt =====
-- The address that the agent finds, and the server's reading of its topics.
use Prim.{tt}
use nodefoundry.Base.{
  ℕ, ◌%◌, ◌≡◌, refl, ap, ◌∙◌, true, false, none, some, Option, ok, arith, Text, text_eq, codes,
  List, [], ◌∷◌, ◌++◌, ◌==◌, ==_iff, length, All, IsFree, split, split-append, split-IsFree,
}
use nodefoundry.Model.{is_hex_digit, lower_hex, keep_hex}
use nodefoundry.Model
use nodefoundry.Model.Mac.{is_lower_hex, normalize_mac_fixed}
use nodefoundry.Mqtt.{topic_mac, StatusMessage, on_status_message, handle_status}
use nodefoundry.Db.{NodeRepository}
use nodefoundry.Agent.{
  all_lower_hex, is_valid_mac, upper, format_pairs, format_mac, Interface, first_valid,
  get_mac_address, status_topic,
}

all_lower_hex-All : (mac : Text) → all_lower_hex mac ≡ true → All (λ c. is_lower_hex c ≡ true) mac
unfolding all_lower_hex
all_lower_hex-All [] h = tt
all_lower_hex-All (c ∷ mac) h = (ground arith, all_lower_hex-All mac (ground arith))

is_valid_mac-All : (mac : Text) → is_valid_mac mac ≡ true → All (λ c. is_lower_hex c ≡ true) mac
unfolding is_valid_mac
is_valid_mac-All mac h = all_lower_hex-All mac (ground arith)

lower_hex-slash : (c : ℕ) → is_lower_hex c ≡ true → (c == b'/') ≡ false
lower_hex-slash c h = ground arith

All-IsFree : (mac : Text) → All (λ c. is_lower_hex c ≡ true) mac → IsFree b'/' mac
All-IsFree [] h = tt
All-IsFree (c ∷ mac) h = (lower_hex-slash c h.0, All-IsFree mac h.1)

split-status_topic :
    (mac : Text)
    → IsFree b'/' mac
    → split b'/' (status_topic mac) ≡ codes "node" ∷ mac ∷ codes "status" ∷ []
unfolding status_topic
split-status_topic mac h =
    split-append b'/' (codes "node") (mac ++ b'/' ∷ codes "status")
      (refl, (refl, (refl, (refl, tt))))
    ∙ ap (λ t. codes "node" ∷ t) (split-append b'/' mac (codes "status") h)
    ∙ ap (λ t. codes "node" ∷ mac ∷ t)
        (split-IsFree b'/' (codes "status") (refl, (refl, (refl, (refl, (refl, (refl, tt)))))))

first_valid-is_valid_mac :
    (l : List Interface) (mac : Text) → first_valid l ≡ ok mac → is_valid_mac mac ≡ true
unfolding first_valid
first_valid-is_valid_mac [] mac h = absurd (ground arith)
first_valid-is_valid_mac (i ∷ rest) mac h = ground (arith, first_valid-is_valid_mac rest mac)

pub get_mac_address-is_valid_mac :
    (env : Text) (l : Option (List Interface)) (mac : Text)
    → get_mac_address env l ≡ ok mac
    → is_valid_mac mac ≡ true
unfolding get_mac_address
get_mac_address-is_valid_mac env none mac h = ground arith
get_mac_address-is_valid_mac env (some l) mac h = ground (arith, first_valid-is_valid_mac l mac)

pub topic_mac-status_topic :
    (mac : Text) → is_valid_mac mac ≡ true → topic_mac (status_topic mac) ≡ some mac
unfolding topic_mac text_eq
topic_mac-status_topic mac h =
    let all = is_valid_mac-All mac h in
    rw (split-status_topic mac (All-IsFree mac all), topic_mac, normalize_mac_fixed mac all) refl

is_valid_mac-server :
    (mac : Text)
    → is_valid_mac mac ≡ true
    → Model.normalize_mac mac ≡ mac
    → Model.is_valid_mac mac ≡ true
unfolding Model.is_valid_mac is_valid_mac
is_valid_mac-server mac h same = rw (Model.is_valid_mac, same) (ground arith)

-- Whatever address the agent finds, in its environment or at its interfaces, the server takes it
-- for a valid one in normal form.
pub get_mac_address_lem :
    (env : Text) (l : Option (List Interface)) (mac : Text)
    → get_mac_address env l ≡ ok mac
    → (Model.is_valid_mac mac ≡ true) × (Model.normalize_mac mac ≡ mac)
get_mac_address_lem env l mac h =
    let valid = get_mac_address-is_valid_mac env l mac h in
    let same = normalize_mac_fixed mac (is_valid_mac-All mac valid) in
    (is_valid_mac-server mac valid same, same)

-- A status that the agent publishes under an address that it found reaches the handler of that node:
-- the server reads the same address from the topic.
pub on_status_message-status_topic :
    {S Payload : Type 0} (repo : NodeRepository S) (unmarshal : Payload → Option StatusMessage)
    (now saved_at : ℕ) (env : Text) (l : Option (List Interface)) (mac : Text) (payload : Payload)
    (msg : StatusMessage) (s : S)
    → get_mac_address env l ≡ ok mac
    → unmarshal payload ≡ some msg
    → on_status_message repo unmarshal now saved_at (status_topic mac) payload s
      ≡ handle_status repo now saved_at mac msg s
unfolding on_status_message
on_status_message-status_topic repo unmarshal now saved_at env l mac payload msg s h read =
    rw
      (
        topic_mac-status_topic mac (get_mac_address-is_valid_mac env l mac h),
        read,
        on_status_message,
      )
      refl

upper-hex :
    (c : ℕ) → is_lower_hex c ≡ true → (is_hex_digit (upper c) ≡ true) × (lower_hex (upper c) ≡ c)
unfolding upper is_hex_digit lower_hex
upper-hex c h = (ground arith, ground arith)

normalize_mac-format_pairs :
    (mac : Text)
    → All (λ c. is_lower_hex c ≡ true) mac
    → length mac % 2 ≡ 0
    → Model.normalize_mac (format_pairs mac) ≡ mac
unfolding format_pairs Model.normalize_mac keep_hex
normalize_mac-format_pairs [] h even = refl
normalize_mac-format_pairs (a ∷ []) h even = absurd (omega arith)
normalize_mac-format_pairs (a ∷ b ∷ []) (ha, (hb, _)) even =
    rw ((upper-hex a ha).0, (upper-hex b hb).0, (upper-hex a ha).1, (upper-hex b hb).1) refl
normalize_mac-format_pairs (a ∷ b ∷ c ∷ rest) (ha, (hb, h)) even =
    rw ((upper-hex a ha).0, (upper-hex b hb).0, (upper-hex a ha).1, (upper-hex b hb).1)
      (ap (λ t. a ∷ b ∷ t) (normalize_mac-format_pairs (c ∷ rest) h (omega arith)))

-- The form with colons and capitals is read back: it normalizes to the address that it was made of.
pub normalize_mac-format_mac :
    (mac : Text) → is_valid_mac mac ≡ true → Model.normalize_mac (format_mac mac) ≡ mac
unfolding format_mac
normalize_mac-format_mac mac h =
    let size : length mac ≡ 12 = unfold is_valid_mac in ground (arith, ==_iff (length mac) 12) in
    let long : (length mac == 12) ≡ true = (==_iff (length mac) 12).1 size in
    rw (long, format_mac)
      (normalize_mac-format_pairs mac (is_valid_mac-All mac h) (omega (arith, size)))
