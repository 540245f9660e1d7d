-- ===== src/Api/Routes/Paths.antt =====
-- The paths that the program hands out are served.
use nodefoundry.Base.{
  ℕ, ◌≡◌, refl, ◌∙◌, ap, some, [], ◌∷◌, ◌++◌, true, false, Text, codes, text_eq, lookup, All,
  IsFree, split, split-IsFree, split-append, GoMap, arith, length,
}
use nodefoundry.Model.{Time, Node, normalize_mac, is_valid_mac}
use nodefoundry.Model.Mac.{is_lower_hex, is_valid_mac-normalize_mac, normalize_mac_idem}
use nodefoundry.Api.Nodes.{register_node-created}
use nodefoundry.Db.{NodeRepository, IsRepository}
use nodefoundry.Ipxe.{Generator}
use nodefoundry.Api.{
  Response, nodes_path, one_node, json, get_node, register_node, register_new, RegisterNodeRequest,
}
use nodefoundry.Api.Boot.{get_boot_script, get_preseed}
use nodefoundry.Api.Routes.{
  get, post, Endpoint, routes, candidates, Engine, IsEngine, Request, Surroundings, call_handler,
  serve, register_node_handler, get_node_handler, boot_script_handler, preseed_handler,
}

-- A part of a path that is not empty.
abbrev pub IsPart : Text → Type 0
IsPart t = IsFree b'/' t × (text_eq t [] ≡ false)

lower_hex-IsFree : (t : Text) → All (λ c. is_lower_hex c ≡ true) t → IsFree b'/' t
lower_hex-IsFree [] h = tt
lower_hex-IsFree (c ∷ t) h = (ground (arith, h.0), lower_hex-IsFree t h.1)

long-given : (t : Text) → length t ≡ 12 → text_eq t [] ≡ false
unfolding text_eq
long-given [] h = absurd (omega arith)
long-given (c ∷ t) h = refl

normal-IsPart : (mac : Text) → is_valid_mac mac ≡ true → IsPart (normalize_mac mac)
normal-IsPart mac valid =
    let (long, hex, _, _) = is_valid_mac-normalize_mac mac valid in
    (lower_hex-IsFree (normalize_mac mac) hex, long-given (normalize_mac mac) long)

node_candidates :
    (mac : Text)
    → text_eq mac [] ≡ false
    → candidates routes get ([] ∷ codes "api" ∷ codes "v1" ∷ codes "nodes" ∷ mac ∷ [])
      ≡ (get_node_handler, (codes "mac", mac) ∷ []) ∷ []
unfolding routes split text_eq
node_candidates [] given = absurd (ground arith)
node_candidates (c ∷ t) given = refl

boot_candidates :
    (mac : Text)
    → text_eq mac [] ≡ false
    → candidates routes get ([] ∷ codes "boot" ∷ mac ∷ codes "boot.ipxe" ∷ [])
      ≡ (boot_script_handler, (codes "mac", mac) ∷ []) ∷ []
unfolding routes split text_eq
boot_candidates [] given = absurd (ground arith)
boot_candidates (c ∷ t) given = refl

preseed_candidates :
    (mac : Text)
    → text_eq mac [] ≡ false
    → candidates routes get ([] ∷ codes "preseed" ∷ mac ∷ codes "preseed.cfg" ∷ [])
      ≡ (preseed_handler, (codes "mac", mac) ∷ []) ∷ []
unfolding routes split text_eq
preseed_candidates [] given = absurd (ground arith)
preseed_candidates (c ∷ t) given = refl

node_path :
    (mac : Text)
    → IsFree b'/' mac
    → split b'/' (nodes_path ++ mac) ≡ [] ∷ codes "api" ∷ codes "v1" ∷ codes "nodes" ∷ mac ∷ []
unfolding split
node_path mac free = rw (split-IsFree b'/' mac free) refl

abbrev pub boot_path : Text → Text
boot_path mac = codes "/boot/" ++ (mac ++ codes "/boot.ipxe")

abbrev pub preseed_path : Text → Text
preseed_path mac = codes "/preseed/" ++ (mac ++ codes "/preseed.cfg")

boot_path_parts :
    (mac : Text)
    → IsFree b'/' mac
    → split b'/' (boot_path mac) ≡ [] ∷ codes "boot" ∷ mac ∷ codes "boot.ipxe" ∷ []
unfolding split
boot_path_parts mac free = rw (split-append b'/' mac (codes "boot.ipxe") free) refl

preseed_path_parts :
    (mac : Text)
    → IsFree b'/' mac
    → split b'/' (preseed_path mac) ≡ [] ∷ codes "preseed" ∷ mac ∷ codes "preseed.cfg" ∷ []
unfolding split
preseed_path_parts mac free = rw (split-append b'/' mac (codes "preseed.cfg") free) refl

module _ {S : Type 0} (repo : NodeRepository S) (g : Generator) (engine : Engine)
    (laws : IsEngine engine) where
  serve_lem :
      (env : Surroundings) (req : Request) (endpoint : Endpoint) (params : GoMap Text) (s : S)
      → candidates routes req.method (split b'/' req.path) ≡ (endpoint, params) ∷ []
      → serve repo g engine env req s ≡ call_handler repo g env req endpoint params s
  unfolding serve
  serve_lem env req endpoint params s one =
      rw (laws.find_one routes req.method req.path endpoint params one, serve) refl

  -- The paths of the boot scripts are served: a machine that asks under its address for its script, or
  -- for the answers of the installer, gets what the generators make for it.
  pub serve-boot_paths :
      (env : Surroundings) (req : Request) (mac : Text) (s : S)
      → IsPart mac
      → (serve repo g engine env (record req { method = get; path = boot_path mac }) s
          ≡ (get_boot_script repo g mac s, s))
        × (serve repo g engine env (record req { method = get; path = preseed_path mac }) s
            ≡ (get_preseed repo g mac req.query s, s))
  unfolding call_handler lookup text_eq
  serve-boot_paths env req mac s (free, given) = (
    serve_lem env (record req { method = get; path = boot_path mac }) boot_script_handler
        ((codes "mac", mac) ∷ []) s (rw (boot_path_parts mac free) (boot_candidates mac given)),
    serve_lem env (record req { method = get; path = preseed_path mac }) preseed_handler
        ((codes "mac", mac) ∷ []) s
        (rw (preseed_path_parts mac free) (preseed_candidates mac given)),
  )

  serve_register :
      (env : Surroundings) (req : Request) (s : S)
      → serve repo g engine env (record req { method = post; path = codes "/api/v1/nodes" }) s
        ≡ register_node repo env.clock req.register_body s
  unfolding call_handler routes split text_eq
  serve_register env req s =
      serve_lem env (record req { method = post; path = codes "/api/v1/nodes" })
        register_node_handler [] s refl

  serve_node :
      (env : Surroundings) (req : Request) (mac : Text) (s : S)
      → IsPart mac
      → serve repo g engine env (record req { method = get; path = nodes_path ++ mac }) s
        ≡ (get_node repo mac s, s)
  unfolding call_handler lookup text_eq
  serve_node env req mac s (free, given) =
      serve_lem env (record req { method = get; path = nodes_path ++ mac }) get_node_handler
        ((codes "mac", mac) ∷ []) s (rw (node_path mac free) (node_candidates mac given))

  register_location :
      (clock : ℕ → Time) (body : RegisterNodeRequest) (s : S)
      → (register_node repo clock (some body) s).0.status_code ≡ 201
      → (register_node repo clock (some body) s).0.location ≡ nodes_path ++ normalize_mac body.mac
  unfolding register_node register_new
  register_location clock body s h = ground arith

  module _ (repo_laws : IsRepository repo) where
    -- A registration that is answered 201 names in its Location header a path under which the server
    -- then answers with the node of that response.
    pub serve-location :
        (env later : Surroundings) (req next : Request) (body : RegisterNodeRequest) (s : S)
        → req.register_body ≡ some body
        → let registered =
            serve repo g engine env
              (record req { method = post; path = codes "/api/v1/nodes" })
              s in
          registered.0.status_code ≡ 201
          → (n : Node) × (registered.0.body ≡ one_node (some n))
            × (serve repo g engine later
                  (record next { method = get; path = registered.0.location })
                  registered.1
                ≡ (json 200 (one_node (some n)), registered.1))
    serve-location env later req next body s is answered =
        let first : serve repo g engine env
              (record req { method = post; path = codes "/api/v1/nodes" }) s
            ≡ register_node repo env.clock (some body) s =
          serve_register env req s ∙ ap (λ b. register_node repo env.clock b s) is in
        let created = rw first at answered in
        let mac = normalize_mac body.mac in
        let s' = (register_node repo env.clock (some body) s).1 in
        let (n, answer, found, own, fresh, valid, new, got) =
          register_node-created repo repo_laws env.clock body mac s created
            (normalize_mac_idem body.mac) in
        (
          n,
          rw first answer,
          rw first (
              rw (register_location env.clock body s created) (
                serve_node later next mac s' (normal-IsPart body.mac valid)
                ∙ ap (λ (r : Response). (r, s')) got)),
        )
