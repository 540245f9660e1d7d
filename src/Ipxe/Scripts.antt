-- ===== src/Ipxe/Scripts.antt =====
-- Which script a machine boots, and what its installer is told (internal/ipxe).
use nodefoundry.Base.{
  ◌≡◌, refl, sym, ap, ◌∙◌, Bool-cases, inl, inr, Option, Result, ok, arith, Text, text_eq, [], ◌∷◌,
  ◌++◌, IsFree, false, true,
}
use nodefoundry.Model.{Time, Node, normalize_mac, state_discovered, state_installing}
use nodefoundry.Db.{NodeRepository, IsRepository}
use nodefoundry.Api.{update_node}
use nodefoundry.Api.Nodes.{update_node-installed}
use nodefoundry.Ipxe.{
  Generator, ScriptError, Netcfg, wait_loop_script, install_script, net_params,
  generate_install_script, script_for, generate_by_status, generate_with_query, generate,
  chosen_netcfg, netcfg_section, preseed_text, no_query, get_server_ip, get_hostname,
}

-- The address of the server that the agent is given: a port is cut off, and only that.
pub get_server_ip_lem :
    (host port : Text)
    → IsFree b':' host
    → (get_server_ip (host ++ b':' ∷ port) ≡ host) × (get_server_ip host ≡ host)
unfolding get_server_ip
get_server_ip_lem [] port h = (ground arith, refl)
get_server_ip_lem (c ∷ host) port h =
    let (with_port, without) = get_server_ip_lem host port h.1 in
    (rw (h.0, with_port), rw (h.0, without))

abbrev pub own_netcfg : Node → Netcfg
own_netcfg node = record {
  ip = node.ip;
  netmask = node.netmask;
  gateway = node.gateway;
  dns = node.dns;
}

chosen_netcfg_own : (node : Node) → chosen_netcfg (own_netcfg node) node ≡ own_netcfg node
unfolding chosen_netcfg
chosen_netcfg_own node = elim (Bool-cases (text_eq node.ip [])) [
  | inl nil ↦ rw (nil, chosen_netcfg) refl
  | inr set ↦ rw (set, chosen_netcfg) refl
]

chosen_netcfg_set :
    (node : Node) → text_eq node.ip [] ≡ false → chosen_netcfg no_query node ≡ own_netcfg node
unfolding chosen_netcfg text_eq
chosen_netcfg_set node set = rw (set, chosen_netcfg) refl

chosen_netcfg_nil :
    (node : Node) → text_eq node.ip [] ≡ true → chosen_netcfg no_query node ≡ no_query
unfolding chosen_netcfg text_eq
chosen_netcfg_nil node nil = rw (nil, chosen_netcfg) refl

netcfg_section_nil :
    (cfg : Netcfg) → text_eq cfg.ip [] ≡ true → netcfg_section cfg ≡ netcfg_section no_query
unfolding netcfg_section text_eq
netcfg_section_nil cfg nil = rw (nil, netcfg_section) refl

chosen_own :
    (node : Node)
    → netcfg_section (chosen_netcfg (own_netcfg node) node)
      ≡ netcfg_section (chosen_netcfg no_query node)
chosen_own node = elim (Bool-cases (text_eq node.ip [])) [
  | inl nil ↦
      ap netcfg_section (chosen_netcfg_own node)
      ∙ netcfg_section_nil (own_netcfg node) nil
      ∙ ap netcfg_section (sym (chosen_netcfg_nil node nil))
  | inr set ↦ ap netcfg_section (chosen_netcfg_own node ∙ sym (chosen_netcfg_set node set))
]

generated : Generator → Node → Text → Result ScriptError Text
generated g node section = ok (preseed_text g (get_hostname node) section)

module _ {S : Type 0} (repo : NodeRepository S) (g : Generator) where
  generate_with_query-found :
      (mac : Text) (query : Netcfg) (node : Node) (s : S)
      → repo.find_by_mac (normalize_mac mac) s ≡ ok node
      → generate_with_query repo g mac query s
        ≡ generated g node (netcfg_section (chosen_netcfg query node))
  unfolding generate_with_query generated
  generate_with_query-found mac query node s there = rw (there, generate_with_query) refl

  -- For a stored node, a request with the node's own network configuration in its query is answered as
  -- one with no query.
  pub generate_with_query-own :
      (mac : Text) (node : Node) (s : S)
      → repo.find_by_mac (normalize_mac mac) s ≡ ok node
      → generate_with_query repo g mac (own_netcfg node) s ≡ generate repo g mac s
  unfolding generate
  generate_with_query-own mac node s there =
      generate_with_query-found mac (own_netcfg node) node s there
      ∙ ap (generated g node) (chosen_own node)
      ∙ sym (generate_with_query-found mac no_query node s there)

  script_for-discovered :
      (status mac : Text) (s : S)
      → status ≡ state_discovered
      → script_for repo g status mac s ≡ ok (wait_loop_script g mac)
  unfolding script_for text_eq
  script_for-discovered status mac s e = rw e refl

  script_for-installing :
      (status mac : Text) (node : Node) (s : S)
      → status ≡ state_installing
      → repo.find_by_mac mac s ≡ ok node
      → script_for repo g status mac s ≡ ok (install_script g mac (net_params node))
  unfolding script_for text_eq
  script_for-installing status mac node s e there = rw (e, generate_install_script, there) refl

  pub generate_by_status-found :
      (mac : Text) (node : Node) (s : S)
      → repo.find_by_mac (normalize_mac mac) s ≡ ok node
      → generate_by_status repo g mac s ≡ script_for repo g node.status (normalize_mac mac) s
  unfolding generate_by_status
  generate_by_status-found mac node s there = rw (there, generate_by_status) refl

  module _ (laws : IsRepository repo) where
    -- An install that is answered 200 changes what the machine boots, under every spelling of its
    -- address: the script that waits before it, and after it the script that installs, with the
    -- network configuration of the node.
    pub generate_by_status-installed :
        (now : Time) (mac m : Text) (action : Option Text) (s : S)
        → (update_node repo now mac action s).0.status_code ≡ 200
        → normalize_mac m ≡ normalize_mac mac
        → (node : Node) × (repo.find_by_mac m s ≡ ok node)
          × (generate_by_status repo g m s ≡ ok (wait_loop_script g (normalize_mac m)))
          × (generate_by_status repo g m (update_node repo now mac action s).1
              ≡ ok (install_script g (normalize_mac m) (net_params node)))
    unfolding net_params
    generate_by_status-installed now mac m action s answered same =
        let (old, there, fresh, act, after, body) =
          update_node-installed repo laws now mac m action s answered same in
        let s' = (update_node repo now mac action s).1 in
        let installing : Node = record old { status = state_installing; updated_at = now } in
        let before : repo.find_by_mac (normalize_mac m) s ≡ ok old =
          laws.find_normalized m s ∙ there in
        let later = laws.find_normalized m s' ∙ after in
        (
          old,
          there,
          generate_by_status-found m old s before
              ∙ script_for-discovered old.status (normalize_mac m) s fresh,
          generate_by_status-found m installing s' later
              ∙ script_for-installing state_installing (normalize_mac m) installing s' refl later,
        )
