-- ===== src/Model/Tests.antt =====
-- The model of a node at concrete values.
use nodefoundry.Base.{◌≡◌, refl, none, ◌↔◌, codes, []}
use nodefoundry.Model.{Node, normalize_mac, can_transition_to, state_installing}
use nodefoundry.Model.Lifecycle.{AllowedChange, can_transition_to-none_iff}

abbrev waiting : Node
waiting = record {
  mac = codes "aabbccddeeff";
  ip = [];
  netmask = [];
  gateway = [];
  dns = [];
  hostname = [];
  status = codes "discovered";
  last_heartbeat = 0;
  created_at = 1;
  updated_at = 1;
  extra = [];
}

can_transition_to-none_iff_example :
    (can_transition_to waiting state_installing ≡ none)
    ↔ AllowedChange waiting.status state_installing
can_transition_to-none_iff_example = can_transition_to-none_iff waiting state_installing

normalized : normalize_mac (codes "AA-bb-CC-dd-EE-ff") ≡ codes "aabbccddeeff"
unfolding normalize_mac
normalized = refl
