-- ===== src/Api.antt =====
-- internal/api/handler.go: the handlers of the nodes. What gin makes of a request is an argument: the
-- path parameter, and the bound body, `none` where `ShouldBindJSON` fails. The handlers of scripts
-- stand in Api/Boot.
pub mod Nodes
pub mod Safety
pub mod Boot
pub mod Routes
mod Tests
use nodefoundry.Base.{
  ℕ, Option, none, some, List, [], ◌++◌, if◌then◌else◌, Result, ok, err, Text, codes, text_eq,
}
use nodefoundry.Model.{
  Time, Node, new_node, is_valid_mac, normalize_mac, state_discovered, state_installing,
}
use nodefoundry.Db.{NodeRepository}

pub record RegisterNodeRequest : Type 0 where
  pub mac : Text
  pub ip : Text

-- The bodies of the responses; `one_node none` is the JSON of a nil node.
pub data Body : Type 0 where
  error_body text_body : Text → Body
  one_node : Option Node → Body
  many_nodes : List Node → Body
  -- the status and the uptime
  health_body : Text → Text → Body

-- A response: its code, its Location header (empty if none is set), and its body.
pub record Response : Type 0 where
  pub status_code : ℕ
  pub location : Text
  pub body : Body

-- `errorResponse`
abbrev pub error_response : ℕ → Text → Response
error_response c message = record { status_code = c; location = []; body = error_body message }

abbrev pub json : ℕ → Body → Response
json c b = record { status_code = c; location = []; body = b }

abbrev pub nodes_path : Text
nodes_path = codes "/api/v1/nodes/"

-- The message of `UpdateNode` for a node in another state.
unfoldable pub cannot_install : Text → Text
cannot_install status =
    codes "cannot install node with status '"
    ++ (status ++ codes "', only 'discovered' nodes can be installed")

-- `FindByMAC` with its error dropped, as in `node, _ = ...`
abbrev pub found_node {ℓ} : {E : Type ℓ} → Result E Node → Option Node
found_node (ok n) = some n
found_node (err _) = none

module _ {S : Type 0} (repo : NodeRepository S) where
  -- `ListNodes`
  unfoldable pub list_nodes : S → Response
  list_nodes store = elim (repo.list store) [
    | err _ ↦ error_response 500 (codes "failed to list nodes")
    | ok nodes ↦ json 200 (many_nodes nodes)
  ]

  -- `GetNode`
  unfoldable pub get_node : Text → S → Response
  get_node mac store = elim (repo.find_by_mac mac store) [
    | err _ ↦ error_response 404 (codes "node not found")
    | ok node ↦ json 200 (one_node (some node))
  ]

  -- The end of `RegisterNode`, from the creation of the node on.
  unfoldable pub register_new : (ℕ → Time) → Text → Text → S → Response × S
  register_new clock mac ip store = elim (new_node (clock 0) mac state_discovered) [
    | err _ ↦ (error_response 500 (codes "failed to create node"), store)
    | ok node ↦
        let addressed = if text_eq ip [] then node else record node { ip = ip } in
        let saved = repo.save (clock 1) addressed store in
        elim (saved.0) [
          | some _ ↦ (error_response 500 (codes "failed to save node"), saved.2)
          | none ↦ (
            record {
              status_code = 201;
              location = nodes_path ++ mac;
              body = one_node (some (saved.1));
            },
            saved.2,
          )
        ]
  ]

  -- `RegisterNode`; `clock n` is the n-th reading of `time.Now`.
  unfoldable pub register_node : (ℕ → Time) → Option RegisterNodeRequest → S → Response × S
  unfolding register_new
  register_node clock none store = (error_response 400 (codes "invalid request body"), store)
  register_node clock (some req) store =
      if is_valid_mac req.mac
      then elim (repo.find_by_mac (normalize_mac req.mac) store) [
        | ok _ ↦ (error_response 409 (codes "node already exists"), store)
        | err _ ↦ register_new clock (normalize_mac req.mac) req.ip store
      ]
      else (error_response 400 (codes "invalid MAC address format"), store)

  -- The action "install" on a node that was found.
  unfoldable pub install : Time → Text → Node → S → Response × S
  unfolding cannot_install
  install now mac node store =
      if text_eq node.status state_discovered
      then (let updated = repo.update_status now mac state_installing store in
          elim (updated.0) [
            | some _ ↦ (error_response 500 (codes "failed to update node status"), updated.1)
            | none ↦
                (json 200 (one_node (found_node (repo.find_by_mac mac (updated.1)))), updated.1)
          ])
      else (error_response 400 (cannot_install node.status), store)

  -- `UpdateNode`; the request is its action.
  unfoldable pub update_node : Time → Text → Option Text → S → Response × S
  unfolding install
  update_node now mac none store = (error_response 400 (codes "invalid request body"), store)
  update_node now mac (some action) store = elim (repo.find_by_mac mac store) [
    | err _ ↦ (error_response 404 (codes "node not found"), store)
    | ok node ↦
        if text_eq action (codes "install")
        then install now mac node store
        else (error_response 400 (codes "unknown action"), store)
  ]
