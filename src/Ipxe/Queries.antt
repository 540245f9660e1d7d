-- ===== src/Ipxe/Queries.antt =====
-- The query that the install script hands over to the installer (internal/ipxe/generator.go), and what
-- internal/ipxe/preseed.go reads of it. Parsing a query is net/url's: what `Get` returns for a query
-- and a key is a parameter.
mod Tests
use nodefoundry.Base.{
  ℕ, ◌≡◌, refl, sym, ap, ◌∙◌, ◌<◌, Bool, false, ◌==◌, Bool-cases, inl, inr, List, [], ◌∷◌, ◌++◌,
  All, Text, codes, text_eq, text_eq_iff, text_eq_refl, if◌then◌else◌, ok, arith, true, ltb, not,
  ◌&&◌,
}
use mathlib.Core.List.{append_assoc, append-nil}
use Prim.{tt}
use nodefoundry.Model.{Node, normalize_mac}
use nodefoundry.Db.{NodeRepository}
use nodefoundry.Ipxe.{Generator, Netcfg, no_query, net_params, given, generate_with_query, generate}
use nodefoundry.Ipxe.Scripts.{own_netcfg, generate_with_query-own}

-- The values that `GenerateWithQuery` asks for.
unfoldable pub netcfg_of : (Text → Text → Text) → Text → Netcfg
netcfg_of get query = record {
  ip = get query (codes "ip");
  netmask = get query (codes "netmask");
  gateway = get query (codes "gateway");
  dns = get query (codes "dns");
}

-- The query of a URL is what follows its question mark.
abbrev pub query_of : Text → Text
query_of [] = []
query_of (c ∷ t) = if c == b'?' then t else query_of t

-- A character that stands for itself in a query.
abbrev pub IsQueryChar : ℕ → Type 0
IsQueryChar c =
    (32 < c)
    × (c < 127)
    × ((c == b'&') ≡ false)
    × ((c == b'=') ≡ false)
    × ((c == b'%') ≡ false)
    × ((c == b'+') ≡ false)
    × ((c == b';') ≡ false)
    × ((c == b'#') ≡ false)

abbrev pub IsQueryText : Text → Type 0
IsQueryText = All IsQueryChar

abbrev pub IsQueryPair : Text × Text → Type 0
IsQueryPair (k, v) = IsQueryText k × IsQueryText v

-- A query of keys with their values.
abbrev pub more_pairs : List (Text × Text) → Text
more_pairs [] = []
more_pairs ((k, v) ∷ more) = b'&' ∷ (k ++ (b'=' ∷ (v ++ more_pairs more)))

abbrev pub pairs_text : List (Text × Text) → Text
pairs_text [] = []
pairs_text ((k, v) ∷ more) = k ++ (b'=' ∷ (v ++ more_pairs more))

abbrev pub value_of : Text → List (Text × Text) → Text
value_of key [] = []
value_of key ((k, v) ∷ more) = if text_eq k key then v else value_of key more

-- What net/url documents of `Query` and `Get`, for a query in which nothing is escaped: the first
-- value of the key, and the empty text for a key that is not there.
abbrev pub ReadsQueries : (Text → Text → Text) → Type 0
ReadsQueries get =
    (pairs : List (Text × Text)) (key : Text)
    → All IsQueryPair pairs
    → get (pairs_text pairs) key ≡ value_of key pairs

-- The network configuration of a node needs no escape.
abbrev pub IsPlainNetcfg : Netcfg → Type 0
IsPlainNetcfg cfg =
    IsQueryText cfg.ip × IsQueryText cfg.netmask × IsQueryText cfg.gateway × IsQueryText cfg.dns

-- A pair with a value that is not empty.
optional : Text → Text → List (Text × Text) → List (Text × Text)
optional key v rest = if text_eq v [] then rest else (key, v) ∷ rest

optional-more :
    (key v : Text) (rest : List (Text × Text))
    → more_pairs (optional key v rest) ≡ given (b'&' ∷ (key ++ (b'=' ∷ []))) v ++ more_pairs rest
unfolding optional
optional-more key v rest = elim (Bool-cases (text_eq v [])) [
  | inl nil ↦ rw nil refl
  | inr set ↦ rw set (
      ap (λ t. b'&' ∷ t)
        (sym (
          ap (λ t. t ++ more_pairs rest) (append_assoc key (b'=' ∷ []) v)
          ∙ append_assoc key (b'=' ∷ v) (more_pairs rest))))
]

value_of-optional :
    (key v : Text) (rest : List (Text × Text))
    → value_of key rest ≡ []
    → value_of key (optional key v rest) ≡ v
unfolding optional
value_of-optional key v rest missing = elim (Bool-cases (text_eq v [])) [
  | inl nil ↦ rw nil (missing ∙ sym ((text_eq_iff v []).0 nil))
  | inr set ↦ rw (set, text_eq_refl key) refl
]

value_of-other :
    (key other v : Text) (rest : List (Text × Text))
    → text_eq other key ≡ false
    → value_of key (optional other v rest) ≡ value_of key rest
unfolding optional
value_of-other key other v rest differs = elim (Bool-cases (text_eq v [])) [
  | inl nil ↦ rw nil refl
  | inr set ↦ rw (set, differs) refl
]

optional-All :
    (key v : Text) (rest : List (Text × Text))
    → IsQueryPair (key, v)
    → All IsQueryPair rest
    → All IsQueryPair (optional key v rest)
unfolding optional
optional-All key v rest pair more = elim (Bool-cases (text_eq v [])) [
  | inl nil ↦ rw nil more
  | inr set ↦ rw set (pair, more)
]

-- The test of it.
abbrev pub plain_query : Text → Bool
plain_query [] = true
plain_query (c ∷ t) =
    ((ltb 32 c && ltb c 127)
      && ((not (c == b'&') && not (c == b'=')) && (not (c == b'%') && not (c == b'+')))
      && (not (c == b';') && not (c == b'#')))
    && plain_query t

pub plain_key : (t : Text) → plain_query t ≡ true → IsQueryText t
plain_key [] h = tt
plain_key (c ∷ t) h = (
  (
    ground arith,
    ground arith,
    ground arith,
    ground arith,
    ground arith,
    ground arith,
    ground arith,
    ground arith,
  ),
  plain_key t (ground arith),
)

netcfg_eq :
    (a b : Netcfg)
    → a.ip ≡ b.ip
    → a.netmask ≡ b.netmask
    → a.gateway ≡ b.gateway
    → a.dns ≡ b.dns
    → a ≡ b
netcfg_eq a b ip netmask gateway dns = ground arith

net_params-nil : (node : Node) → text_eq node.ip [] ≡ true → net_params node ≡ []
unfolding net_params
net_params-nil node nil = rw nil refl

-- The parameters of a node, as keys with values.
params : Netcfg → List (Text × Text)
params cfg =
    (codes "ip", cfg.ip)
    ∷ optional (codes "netmask") cfg.netmask
        (optional (codes "gateway") cfg.gateway (optional (codes "dns") cfg.dns []))

params-All : (cfg : Netcfg) → IsPlainNetcfg cfg → All IsQueryPair (params cfg)
unfolding params
params-All cfg (ip, netmask, gateway, dns) =
    let last = optional-All (codes "dns") cfg.dns [] (plain_key (codes "dns") refl, dns) tt in
    let middle =
      optional-All (codes "gateway") cfg.gateway (optional (codes "dns") cfg.dns [])
        (plain_key (codes "gateway") refl, gateway) last in
    (
      (plain_key (codes "ip") refl, ip),
      optional-All (codes "netmask") cfg.netmask
          (optional (codes "gateway") cfg.gateway (optional (codes "dns") cfg.dns []))
          (plain_key (codes "netmask") refl, netmask) middle,
    )

net_params-pairs :
    (node : Node)
    → text_eq node.ip [] ≡ false
    → net_params node ≡ b'?' ∷ pairs_text (params (own_netcfg node))
unfolding net_params params
net_params-pairs node set =
    let last : List (Text × Text) = optional (codes "dns") node.dns [] in
    let middle : List (Text × Text) = optional (codes "gateway") node.gateway last in
    rw (net_params, set)
      (ap (λ t. codes "?ip=" ++ (node.ip ++ t))
        (sym (
          optional-more (codes "netmask") node.netmask middle
          ∙ ap (λ t. given (codes "&netmask=") node.netmask ++ t)
              (optional-more (codes "gateway") node.gateway last
                ∙ ap (λ t. given (codes "&gateway=") node.gateway ++ t)
                    (optional-more (codes "dns") node.dns []
                      ∙ append-nil (given (codes "&dns=") node.dns))))))

module _ (get : Text → Text → Text) (reads : ReadsQueries get) where
  netcfg_of-params :
      (cfg : Netcfg) → IsPlainNetcfg cfg → netcfg_of get (pairs_text (params cfg)) ≡ cfg
  unfolding netcfg_of params text_eq
  netcfg_of-params cfg plain =
      let all = params-All cfg plain in
      let last : List (Text × Text) = optional (codes "dns") cfg.dns [] in
      let middle : List (Text × Text) = optional (codes "gateway") cfg.gateway last in
      let outer : List (Text × Text) = optional (codes "netmask") cfg.netmask middle in
      let read : (key : Text) → get (pairs_text (params cfg)) key ≡ value_of key (params cfg) =
        λ key. reads (params cfg) key all in
      let netmask : value_of (codes "netmask") (params cfg) ≡ cfg.netmask =
        value_of-optional (codes "netmask") cfg.netmask middle (
          value_of-other (codes "netmask") (codes "gateway") cfg.gateway last refl
          ∙ value_of-other (codes "netmask") (codes "dns") cfg.dns [] refl) in
      let gateway : value_of (codes "gateway") (params cfg) ≡ cfg.gateway =
        value_of-other (codes "gateway") (codes "netmask") cfg.netmask middle refl
        ∙ value_of-optional (codes "gateway") cfg.gateway last
            (value_of-other (codes "gateway") (codes "dns") cfg.dns [] refl) in
      let dns : value_of (codes "dns") (params cfg) ≡ cfg.dns =
        value_of-other (codes "dns") (codes "netmask") cfg.netmask middle refl
        ∙ value_of-other (codes "dns") (codes "gateway") cfg.gateway last refl
        ∙ value_of-optional (codes "dns") cfg.dns [] refl in
      netcfg_eq (netcfg_of get (pairs_text (params cfg))) cfg (read (codes "ip"))
        (read (codes "netmask") ∙ netmask) (read (codes "gateway") ∙ gateway)
        (read (codes "dns") ∙ dns)

  netcfg_of-nil : netcfg_of get [] ≡ no_query
  unfolding netcfg_of
  netcfg_of-nil =
      netcfg_eq (netcfg_of get []) no_query (reads [] (codes "ip") tt)
        (reads [] (codes "netmask") tt) (reads [] (codes "gateway") tt) (reads [] (codes "dns") tt)

  -- The parameters that the install script hands over to the installer change nothing: for a stored
  -- node whose network configuration needs no escape in a URL, a request for the preseed with the query
  -- of those parameters is answered as one with no query.
  pub generate_with_query-net_params :
      {S : Type 0} (repo : NodeRepository S) (g : Generator) (mac : Text) (node : Node) (s : S)
      → repo.find_by_mac (normalize_mac mac) s ≡ ok node
      → IsPlainNetcfg (own_netcfg node)
      → generate_with_query repo g mac (netcfg_of get (query_of (net_params node))) s
        ≡ generate repo g mac s
  unfolding generate
  generate_with_query-net_params repo g mac node s there plain =
      elim (Bool-cases (text_eq node.ip [])) [
        | inl nil ↦
            ap (λ q. generate_with_query repo g mac (netcfg_of get (query_of q)) s)
              (net_params-nil node nil)
            ∙ ap (λ q. generate_with_query repo g mac q s) netcfg_of-nil
        | inr set ↦
            ap (λ q. generate_with_query repo g mac (netcfg_of get (query_of q)) s)
              (net_params-pairs node set)
            ∙ ap (λ q. generate_with_query repo g mac q s)
                (netcfg_of-params (own_netcfg node) plain)
            ∙ generate_with_query-own repo g mac node s there
      ]
