-- ===== src/Ipxe/Queries/Tests.antt =====
-- A reader of queries, which does what net/url documents when nothing is escaped.
use nodefoundry.Base.{
  ◌≡◌, refl, sym, ap, ◌∙◌, none, some, List, [], ◌∷◌, ◌++◌, All, IsFree, split, split-IsFree,
  split-append, until, until-append, Text, codes, text_eq, lookup, if◌then◌else◌, map,
}
use mathlib.Core.List.{append_assoc, append-nil}
use nodefoundry.Model.{Node, normalize_mac}
use nodefoundry.Db.Bolt.{find_by_mac}
use nodefoundry.Db.Bolt.Memory.{Memory, memory_repository, node_a, mac_a}
use nodefoundry.Ipxe.{Generator, net_params, generate_with_query, generate}
use nodefoundry.Ipxe.Queries.{
  netcfg_of, query_of, IsQueryText, IsQueryPair, more_pairs, value_of, ReadsQueries, plain_key,
  generate_with_query-net_params,
}

abbrev find_value : Text → List Text → Text
find_value key [] = []
find_value key (part ∷ rest) =
    let later = find_value key rest in
    elim (until b'=' part) [ none ↦ later | some (k, v) ↦ if text_eq k key then v else later ]

abbrev plain_get : Text → Text → Text
plain_get query key = find_value key (split b'&' query)

abbrev part_of : Text × Text → Text
part_of (k, v) = k ++ (b'=' ∷ v)

IsQueryText-IsFree : (t : Text) → IsQueryText t → IsFree b'&' t × IsFree b'=' t
IsQueryText-IsFree [] h = (tt, tt)
IsQueryText-IsFree (c ∷ t) ((low, high, amp, equals, _, _, _, _), h) =
    let (ampersand, equal) = IsQueryText-IsFree t h in ((amp, ampersand), (equals, equal))

IsFree-append : (a b : Text) → IsFree b'&' a → IsFree b'&' b → IsFree b'&' (a ++ (b'=' ∷ b))
IsFree-append [] b h h' = (refl, h')
IsFree-append (c ∷ a) b h h' = (h.0, IsFree-append a b h.1 h')

split-more_pairs :
    (a : Text) (pairs : List (Text × Text))
    → IsFree b'&' a
    → All IsQueryPair pairs
    → split b'&' (a ++ more_pairs pairs) ≡ a ∷ map part_of pairs
split-more_pairs a [] free all = rw (append-nil a) (split-IsFree b'&' a free)
split-more_pairs a ((k, v) ∷ rest) free ((key, value), all) =
    split-append b'&' a (k ++ (b'=' ∷ (v ++ more_pairs rest))) free
    ∙ ap (λ t. a ∷ split b'&' t) (sym (append_assoc k (b'=' ∷ v) (more_pairs rest)))
    ∙ ap (λ l. a ∷ l)
        (split-more_pairs (k ++ (b'=' ∷ v)) rest
          (IsFree-append k v (IsQueryText-IsFree k key).0 (IsQueryText-IsFree v value).0) all)

find_value-part :
    (key k v part : Text) (rest : List Text)
    → until b'=' part ≡ some (k, v)
    → find_value key (part ∷ rest) ≡ (if text_eq k key then v else find_value key rest)
find_value-part key k v part rest e = rw (e, find_value) refl

find_value-parts :
    (key : Text) (pairs : List (Text × Text))
    → All IsQueryPair pairs
    → find_value key (map part_of pairs) ≡ value_of key pairs
find_value-parts key [] all = refl
find_value-parts key ((k, v) ∷ rest) ((plain, value), all) =
    find_value-part key k v (k ++ (b'=' ∷ v)) (map part_of rest)
      (until-append b'=' k v (IsQueryText-IsFree k plain).1)
    ∙ ap (λ t. if text_eq k key then v else t) (find_value-parts key rest all)

plain_get-ReadsQueries : ReadsQueries plain_get
unfolding split
plain_get-ReadsQueries [] key all = refl
plain_get-ReadsQueries ((k, v) ∷ rest) key ((plain, value), all) =
    ap (λ t. find_value key (split b'&' t)) (sym (append_assoc k (b'=' ∷ v) (more_pairs rest)))
    ∙ ap (find_value key) (
        split-more_pairs (k ++ (b'=' ∷ v)) rest
          (IsFree-append k v (IsQueryText-IsFree k plain).0 (IsQueryText-IsFree v value).0) all)
    ∙ find_value-parts key ((k, v) ∷ rest) ((plain, value), all)

abbrev generator : Generator
generator = record { server_addr = codes "10.0.0.1:8080"; mirror_url = codes "mirror" }

-- The first node, with an address that the DHCP server gave it.
abbrev static_node : Node
static_node = record node_a {
  ip = codes "10.0.0.9";
  netmask = codes "ffffff00";
  gateway = codes "10.0.0.1";
  dns = codes "8.8.8.8,1.1.1.1";
}

abbrev static_store : Memory
static_store = some ((mac_a, static_node) ∷ [])

handed_over :
    net_params static_node
    ≡ codes "?ip=10.0.0.9&netmask=ffffff00&gateway=10.0.0.1&dns=8.8.8.8,1.1.1.1"
unfolding net_params text_eq
handed_over = refl

generate_with_query-net_params_example :
    generate_with_query memory_repository generator mac_a
      (netcfg_of plain_get (query_of (net_params static_node)))
      static_store
    ≡ generate memory_repository generator mac_a static_store
generate_with_query-net_params_example =
    generate_with_query-net_params plain_get plain_get-ReadsQueries memory_repository generator
      mac_a static_node static_store (unfold find_by_mac text_eq lookup normalize_mac in refl)
      (
        plain_key static_node.ip refl,
        plain_key static_node.netmask refl,
        plain_key static_node.gateway refl,
        plain_key static_node.dns refl,
      )
