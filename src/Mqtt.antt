-- ===== src/Mqtt.antt =====
-- internal/mqtt/client.go: the handler of status messages. What `json.Unmarshal` makes of a payload is a
-- parameter. `Start` and `onConnect` stand in Server/Running.
pub mod Status
mod Tests
use nodefoundry.Base.{
  ◌&&◌, Option, none, some, [], ◌∷◌, if◌then◌else◌, ok, err, Text, codes, text_eq, split,
}
use nodefoundry.Model.{Time, Node, normalize_mac, is_valid_status, can_transition_to}
use nodefoundry.Db.{NodeRepository}

-- The fields of `StatusMessage` that the handler reads.
pub record StatusMessage : Type 0 where
  pub status : Text
  pub ip : Text
  pub hostname : Text

-- The address part of a topic node/{mac}/status.
unfoldable pub topic_mac : Text → Option Text
unfolding split
topic_mac topic = elim (split b'/' topic) [
  | a ∷ mac ∷ c ∷ [] ↦
      if text_eq a (codes "node") && text_eq c (codes "status")
      then some (normalize_mac mac)
      else none
  | _ ↦ none
]

-- The heartbeat, the address and the host name that both branches write.
unfoldable pub with_heartbeat : Time → StatusMessage → Node → Node
with_heartbeat now msg node =
    let beaten = record node { last_heartbeat = now } in
    let addressed = if text_eq msg.ip [] then beaten else record beaten { ip = msg.ip } in
    if text_eq msg.hostname [] then addressed else record addressed { hostname = msg.hostname }

module _ {S : Type 0} (repo : NodeRepository S) where
  -- The end of the handler, for a node that was found: `now` is the heartbeat, `saved_at` the reading
  -- of the clock in `Save`. A failing `Save` is only logged.
  unfoldable pub apply_status : Time → Time → StatusMessage → Node → S → S
  unfolding with_heartbeat
  apply_status now saved_at msg node store = elim (can_transition_to node msg.status) [
    | some _ ↦ (repo.save saved_at (with_heartbeat now msg node) store).2
    | none ↦
        (repo.save saved_at (with_heartbeat now msg (record node { status = msg.status })) store).2
  ]

  -- A message with a valid topic and payload.
  unfoldable pub handle_status : Time → Time → Text → StatusMessage → S → S
  unfolding apply_status
  handle_status now saved_at mac msg store =
      if is_valid_status msg.status
      then elim (repo.find_by_mac mac store) [
        | err _ ↦ store
        | ok node ↦ apply_status now saved_at msg node store
      ]
      else store

  -- `onStatusMessage`
  unfoldable pub on_status_message :
      {Payload : Type 0} → (Payload → Option StatusMessage) → Time → Time → Text → Payload → S → S
  unfolding topic_mac handle_status
  on_status_message unmarshal now saved_at topic payload store = elim (topic_mac topic) [
    | none ↦ store
    | some mac ↦ elim (unmarshal payload) [
      | none ↦ store
      | some msg ↦ handle_status now saved_at mac msg store
    ]
  ]
