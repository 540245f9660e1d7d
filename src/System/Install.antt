-- ===== src/System/Install.antt =====
-- The installation of a machine from end to end: the request of internal/api/handler.go, the report of
-- the agent on the machine (internal/agent/mqtt.go), its handler in internal/mqtt/client.go, and the
-- boot script of internal/ipxe/generator.go.
pub mod Samples
pub mod Heartbeats
mod Tests
use nodefoundry.Base.{
  ℕ, Bool, ◌∷◌, leb, ltb, not, ◌&&◌, ◌≡◌, ◌≤◌, ◌<◌, refl, sym, ◌∙◌, subst, true, false, Option,
  some, none, List, Result, ok, All, Text, codes, text_eq, [], ◌==◌, arith, if◌then◌else◌, ap,
}
use nodefoundry.Model.{
  Time, Node, normalize_mac, state_installing, state_installed, is_valid_status, can_transition_to,
}
use nodefoundry.Db.{NodeRepository, IsRepository}
use nodefoundry.Db.WellFormed.{IsWellFormed}
use nodefoundry.Api.{update_node, Response, json, text_body}
use nodefoundry.Api.Boot.{get_boot_script}
use nodefoundry.Api.Nodes.{update_node-installed}
use nodefoundry.Api.Safety.{update_node-safe}
use nodefoundry.Mqtt.{StatusMessage, on_status_message, handle_status}
use nodefoundry.Mqtt.Status.{reported_node, handle_status-find, settled_status}
use nodefoundry.Ipxe.{
  Generator, generate_by_status, script_for, local_boot_script, install_script, net_params,
}
use nodefoundry.Ipxe.Scripts.{generate_by_status-found, generate_by_status-installed}
use nodefoundry.Agent.{Interface, get_mac_address, status_topic}
use nodefoundry.Agent.Address.{on_status_message-status_topic, get_mac_address_lem}
use nodefoundry.Agent.Client.{Report, status_payload}

-- A text that stands for itself between the quotes of a JSON string.
abbrev pub IsPlainChar : ℕ → Type 0
IsPlainChar c = (32 ≤ c) × (c < 128) × ((c == b'"') ≡ false) × ((c == 92) ≡ false)

abbrev pub IsPlain : Text → Type 0
IsPlain = All IsPlainChar

abbrev pub IsPlainReport : Report → Type 0
IsPlainReport r = IsPlain r.ip × IsPlain r.hostname × IsPlain r.timestamp

abbrev pub message_of : Text → Report → StatusMessage
message_of status r = record { status = status; ip = r.ip; hostname = r.hostname }

-- What encoding/json makes of an object with the fields of a status message, when no text in it needs
-- to be escaped: fields that the structure does not have are skipped.
abbrev pub ReadsReports : (Text → Option StatusMessage) → Type 0
ReadsReports unmarshal =
    (status : Text) (r : Report)
    → IsPlain status
    → IsPlainReport r
    → unmarshal (status_payload status r) ≡ some (message_of status r)

-- The test of it.
abbrev pub plain_text : Text → Bool
plain_text [] = true
plain_text (c ∷ t) = ((leb 32 c && ltb c 128) && (not (c == b'"') && not (c == 92))) && plain_text t

pub plain_text-IsPlain : (t : Text) → plain_text t ≡ true → IsPlain t
plain_text-IsPlain [] h = tt
plain_text-IsPlain (c ∷ t) h =
    ((ground arith, ground arith, ground arith, ground arith), plain_text-IsPlain t (ground arith))

pub installed-IsPlain : IsPlain state_installed
installed-IsPlain = plain_text-IsPlain state_installed refl

module _ {S : Type 0} (repo : NodeRepository S) (g : Generator) where
  valid_installed : is_valid_status state_installed ≡ true
  unfolding is_valid_status text_eq
  valid_installed = refl

  script_for-installed :
      (status mac : Text) (s : S)
      → status ≡ state_installed
      → script_for repo g status mac s ≡ ok local_boot_script
  unfolding script_for text_eq
  script_for-installed status mac s e = rw e refl

  get_boot_script-installed :
      (mac : Text) (node : Node) (s : S)
      → repo.find_by_mac (normalize_mac mac) s ≡ ok node
      → node.status ≡ state_installed
      → get_boot_script repo g mac s ≡ json 200 (text_body local_boot_script)
  unfolding get_boot_script
  get_boot_script-installed mac node s there at =
      rw
        (
          generate_by_status-found repo g mac node s there
              ∙ script_for-installed node.status (normalize_mac mac) s at,
          get_boot_script,
        )
        refl

  settled-installed :
      (node : Node)
      → node.status ≡ state_installing
      → settled_status node state_installed ≡ state_installed
  unfolding can_transition_to is_valid_status text_eq
  settled-installed node at = rw at refl

  module _ (laws : IsRepository repo) (unmarshal : Text → Option StatusMessage)
      (reads : ReadsReports unmarshal) where
    -- An installation ends. In a well-formed store, when an install of a machine was answered 200 under
    -- its address, in any spelling, when the agent on it then reports under the address that it found,
    -- with texts that need no escape, and when the save of that report succeeds, the node is found as
    -- installed, with the time of the report as its heartbeat, with the reported address and host name
    -- unless they are empty, and with its creation time, and the machine boots from its disk.
    pub install_completes :
        (now later saved_at : Time) (m mac env : Text) (interfaces : Option (List Interface))
        (action : Option Text) (r : Report) (s : S)
        → IsWellFormed repo s
        → get_mac_address env interfaces ≡ ok mac
        → normalize_mac m ≡ mac
        → (update_node repo now m action s).0.status_code ≡ 200
        → IsPlainReport r
        → ((n : Node)
            → repo.find_by_mac mac (update_node repo now m action s).1 ≡ ok n
            → (repo.save saved_at
                (reported_node later (message_of state_installed r) n)
                (update_node repo now m action s).1).0
              ≡ none)
        → let end_store =
            on_status_message repo unmarshal later saved_at
              (status_topic mac)
              (status_payload state_installed r)
              (update_node repo now m action s).1 in
          (old n : Node) × (repo.find_by_mac mac s ≡ ok old)
          × (repo.find_by_mac mac end_store ≡ ok n)
          × (n.status ≡ state_installed)
          × (n.last_heartbeat ≡ later)
          × (n.ip ≡ (if text_eq r.ip [] then old.ip else r.ip))
          × (n.hostname ≡ (if text_eq r.hostname [] then old.hostname else r.hostname))
          × (n.created_at ≡ old.created_at)
          × (get_boot_script repo g mac end_store ≡ json 200 (text_body local_boot_script))
    install_completes now later saved_at m mac env interfaces action r s wf found same answered
          plain saves =
        let s' = (update_node repo now m action s).1 in
        let msg : StatusMessage = message_of state_installed r in
        let wf' = (update_node-safe repo laws s wf now m action).0 in
        let (valid, normal) = get_mac_address_lem env interfaces mac found in
        let spelled : normalize_mac mac ≡ normalize_mac m = normal ∙ sym same in
        let (old, there, fresh, act, after, body) =
          update_node-installed repo laws now m mac action s answered spelled in
        let installing : Node = record old { status = state_installing; updated_at = now } in
        let handled =
          on_status_message-status_topic repo unmarshal later saved_at env interfaces mac
            (status_payload state_installed r) msg s' found
            (reads state_installed r installed-IsPlain plain) in
        let (n, at, status, beat, ip, host, created) =
          handle_status-find repo laws later saved_at mac mac msg installing s' wf' valid_installed
            after (saves installing after) refl in
        let installed : n.status ≡ state_installed = status ∙ settled-installed installing refl in
        (
          old,
          n,
          there,
          rw handled at,
          installed,
          beat,
          ip,
          host,
          created,
          rw handled (get_boot_script-installed mac n _ (rw normal at) installed),
        )
