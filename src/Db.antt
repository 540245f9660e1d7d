-- ===== src/Db.antt =====
-- internal/db/node_repository.go: the interface that the DHCP server, the MQTT client, the HTTP
-- handlers and the script generators use, and the laws that they rely on.
pub mod Bolt
pub mod WellFormed
pub mod Creation
use nodefoundry.Base.{◌≡◌, Option, none, some, List, if◌then◌else◌, Result, ok, err, Text, text_eq}
use nodefoundry.Model.{Time, Node, NodeError, normalize_mac, can_transition_to, validate}

-- The errors that a repository returns: those of node_repository.go, of `Validate`, and those that
-- bbolt and encoding/json hand on.
pub data RepoError : Type 0 where
  rejected : NodeError → RepoError
  node_not_found : Text → RepoError
  bad_transition : Text → Text → RepoError
  bucket_not_found decode_failed encode_failed put_failed delete_failed commit_failed : RepoError

-- `NodeRepository`, over the type `S` of what it stores. A method that writes returns its error
-- (`none` is nil) and the new store; `save` also returns the node, which it changes through its
-- pointer. The context argument is not used by any method.
pub record NodeRepository (S : Type 0) : Type 0 where
  pub save : Time → Node → S → Option RepoError × Node × S
  pub find_by_mac : Text → S → Result RepoError Node
  pub list : S → Result RepoError (List Node)
  pub list_by_status : Text → S → Result RepoError (List Node)
  pub update_status : Time → Text → Text → S → Option RepoError × S
  pub delete : Text → S → Option RepoError × S

-- The creation time that a saved node gets.
abbrev pub created_of : Time → Result RepoError Node → Time
created_of now (ok old) = old.created_at
created_of now (err _) = now

-- The node that a successful `Save` stores.
abbrev pub saved_node : Time → Node → Result RepoError Node → Node
saved_node now n old = record n {
  mac = normalize_mac n.mac;
  created_at = created_of now old;
  updated_at = now;
}

-- What a client may rely on.
pub record IsRepository {S : Type 0} (repo : NodeRepository S) : Type 0 where
  pub find_normalized :
      (m : Text) (s : S) → repo.find_by_mac (normalize_mac m) s ≡ repo.find_by_mac m s
  pub save_failed :
      (now : Time) (n : Node) (s : S) (e : RepoError)
      → (repo.save now n s).0 ≡ some e
      → (repo.save now n s).2 ≡ s
  pub save_kept :
      (now : Time) (n : Node) (s : S)
      → (repo.save now n s).0 ≡ none
      → (repo.save now n s).1 ≡ saved_node now n (repo.find_by_mac n.mac s)
  pub save_valid :
      (now : Time) (n : Node) (s : S) → (repo.save now n s).0 ≡ none → validate n ≡ none
  pub find_saved :
      (now : Time) (n : Node) (s : S) (m : Text)
      → (repo.save now n s).0 ≡ none
      → repo.find_by_mac m (repo.save now n s).2 ≡ (
          if text_eq (normalize_mac n.mac) (normalize_mac m)
          then ok (repo.save now n s).1
          else repo.find_by_mac m s)
  pub update_failed :
      (now : Time) (mac status : Text) (s : S) (e : RepoError)
      → (repo.update_status now mac status s).0 ≡ some e
      → (repo.update_status now mac status s).1 ≡ s
  pub update_found :
      (now : Time) (mac status : Text) (s : S)
      → (repo.update_status now mac status s).0 ≡ none
      → (old : Node) × (repo.find_by_mac mac s ≡ ok old) × (can_transition_to old status ≡ none)
  pub find_updated :
      (now : Time) (mac status : Text) (s : S) (old : Node) (m : Text)
      → (repo.update_status now mac status s).0 ≡ none
      → repo.find_by_mac mac s ≡ ok old
      → repo.find_by_mac m (repo.update_status now mac status s).1 ≡ (
          if text_eq (normalize_mac mac) (normalize_mac m)
          then ok (record old { status = status; updated_at = now })
          else repo.find_by_mac m s)
