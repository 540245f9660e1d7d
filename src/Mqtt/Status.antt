-- ===== src/Mqtt/Status.antt =====
-- What a status message does to the store (internal/mqtt/client.go).
use nodefoundry.Base.{
  ◌≡◌, refl, true, Bool-cases, inl, inr, Option, none, some, Option-cases, arith, if◌then◌else◌, ok,
  Result-cases, Text, text_eq, [],
}
use nodefoundry.Model.{Time, Node, NodeError, normalize_mac, can_transition_to, is_valid_status}
use nodefoundry.Model.Lifecycle.{
  IsState, Forward, Forward-refl, AllowedChange-Forward, can_transition_to-none_iff,
}
use nodefoundry.Db.{NodeRepository, IsRepository}
use nodefoundry.Db.WellFormed.{
  IsWellFormed, Evolves, Evolves-refl, save-IsWellFormed, save_found-Evolves, find-save_found,
}
use nodefoundry.Mqtt.{
  StatusMessage, with_heartbeat, apply_status, handle_status, on_status_message, topic_mac,
}

-- The status that a node has after the message: the reported one if the transition is allowed.
abbrev pub settle : Option NodeError → Text → Text → Text
settle none reported current = reported
settle (some _) reported current = current

abbrev pub settled_status : Node → Text → Text
settled_status node reported = settle (can_transition_to node reported) reported node.status

abbrev pub reported_node : Time → StatusMessage → Node → Node
reported_node now msg node =
    with_heartbeat now msg (record node { status = settled_status node msg.status })

reported_fields :
    (now : Time) (msg : StatusMessage) (node : Node)
    → let n = reported_node now msg node in
      (n.mac ≡ node.mac)
      × (n.status ≡ settled_status node msg.status)
      × (n.last_heartbeat ≡ now)
      × (n.ip ≡ (if text_eq msg.ip [] then node.ip else msg.ip))
      × (n.hostname ≡ (if text_eq msg.hostname [] then node.hostname else msg.hostname))
unfolding with_heartbeat
reported_fields now msg node = ground arith

settled-Forward :
    (node : Node) (reported : Text)
    → IsState node.status
    → Forward node.status (settled_status node reported)
settled-Forward node reported valid = elim (Option-cases (can_transition_to node reported)) [
  | inl fine ↦ rw fine (
      AllowedChange-Forward node.status reported
        ((can_transition_to-none_iff node reported).0 fine))
  | inr (e, refused) ↦ rw refused (Forward-refl node.status valid)
]

module _ {S : Type 0} (repo : NodeRepository S) where
  apply_status-save :
      (now saved_at : Time) (msg : StatusMessage) (node : Node) (s : S)
      → apply_status repo now saved_at msg node s
        ≡ (repo.save saved_at (reported_node now msg node) s).2
  unfolding apply_status
  apply_status-save now saved_at msg node s = ground arith

  handle_status-save :
      (now saved_at : Time) (mac : Text) (msg : StatusMessage) (node : Node) (s : S)
      → is_valid_status msg.status ≡ true
      → repo.find_by_mac mac s ≡ ok node
      → handle_status repo now saved_at mac msg s
        ≡ (repo.save saved_at (reported_node now msg node) s).2
  unfolding handle_status
  handle_status-save now saved_at mac msg node s good there =
      rw (good, there) (apply_status-save now saved_at msg node s)

  module _ (laws : IsRepository repo) where
    handle_status-safe :
        (now saved_at : Time) (mac : Text) (msg : StatusMessage) (s : S)
        → IsWellFormed repo s
        → IsWellFormed repo (handle_status repo now saved_at mac msg s)
          × Evolves repo s (handle_status repo now saved_at mac msg s)
    unfolding handle_status
    handle_status-safe now saved_at mac msg s w = elim (Bool-cases (is_valid_status msg.status)) [
      | inr bad ↦ rw bad (w, Evolves-refl repo laws s w)
      | inl good ↦ elim (Result-cases (repo.find_by_mac mac s)) [
        | inr (e, missing) ↦ rw (good, missing) (w, Evolves-refl repo laws s w)
        | inl (node, there) ↦
            rw (good, there, apply_status-save now saved_at msg node s)
              (
                save-IsWellFormed repo laws saved_at (reported_node now msg node) s w,
                save_found-Evolves repo laws saved_at mac (reported_node now msg node) s w node
                    there (reported_fields now msg node).0
                    (rw (reported_fields now msg node).1
                      (settled-Forward node msg.status (w.valid mac node there))),
              )
      ]
    ]

    -- Whatever topic and payload arrive, and whether or not the save succeeds, a well-formed store
    -- stays well formed, no node is lost, and no status goes back.
    pub on_status_message-safe :
        {Payload : Type 0} (unmarshal : Payload → Option StatusMessage) (now saved_at : Time)
        (topic : Text) (payload : Payload) (s : S)
        → IsWellFormed repo s
        → IsWellFormed repo (on_status_message repo unmarshal now saved_at topic payload s)
          × Evolves repo s (on_status_message repo unmarshal now saved_at topic payload s)
    unfolding on_status_message
    on_status_message-safe unmarshal now saved_at topic payload s w =
        elim (Option-cases (topic_mac topic)) [
          | inl bad ↦ rw (bad, on_status_message) (w, Evolves-refl repo laws s w)
          | inr (mac, good) ↦ elim (Option-cases (unmarshal payload)) [
            | inl bad ↦ rw (good, bad, on_status_message) (w, Evolves-refl repo laws s w)
            | inr (msg, read) ↦
                rw (good, read, on_status_message) (handle_status-safe now saved_at mac msg s w)
          ]
        ]

    -- A valid report about a known node, when the save succeeds: under every spelling of its address
    -- the node is found with the reported status if the transition is allowed and with its old status
    -- if not, and in both cases with the time of the report as its heartbeat, with the reported
    -- address and host name unless they are empty, and with its creation time.
    pub handle_status-find :
        (now saved_at : Time) (mac m : Text) (msg : StatusMessage) (node : Node) (s : S)
        → IsWellFormed repo s
        → is_valid_status msg.status ≡ true
        → repo.find_by_mac mac s ≡ ok node
        → (repo.save saved_at (reported_node now msg node) s).0 ≡ none
        → normalize_mac m ≡ normalize_mac mac
        → (n : Node) × (repo.find_by_mac m (handle_status repo now saved_at mac msg s) ≡ ok n)
          × (n.status ≡ settled_status node msg.status)
          × (n.last_heartbeat ≡ now)
          × (n.ip ≡ (if text_eq msg.ip [] then node.ip else msg.ip))
          × (n.hostname ≡ (if text_eq msg.hostname [] then node.hostname else msg.hostname))
          × (n.created_at ≡ node.created_at)
    handle_status-find now saved_at mac m msg node s w good there done same =
        let fields = reported_fields now msg node in
        (
          record (reported_node now msg node) {
            mac = normalize_mac mac;
            created_at = node.created_at;
            updated_at = saved_at;
          },
          rw (handle_status-save now saved_at mac msg node s good there) (
              find-save_found repo laws saved_at mac (reported_node now msg node) s w node m there
                fields.0 done same),
          fields.1,
          fields.2,
          fields.3,
          fields.4,
          refl,
        )
