-- ===== src/Config/Defaults.antt =====
-- What the settings hold whatever the environment is (internal/server/config.go).
use Prim.{tt}
use nodefoundry.Base.{
  ℕ, ◌≡◌, refl, false, Bool-cases, Option-cases, List-cases, inl, inr, some, List, [], ◌∷◌, ◌++◌,
  arith, Text, text_eq, codes, All, IsFree, split, ◌==◌,
}
use nodefoundry.Config.{
  Environment, Config, before_colon, infer_tftp, infer_server_addr, get_env, trimmed,
  parse_dns_list, find_server_addr, tftp_server, config_of, load_config,
}

abbrev pub IsGiven : Text → Type 0
IsGiven t = text_eq t [] ≡ false

before_colon-append :
    (host port : Text) → IsFree b':' host → before_colon (host ++ b':' ∷ port) ≡ some host
unfolding before_colon
before_colon-append [] port h = ground arith
before_colon-append (c ∷ host) port h = rw (h.0, before_colon-append host port h.1) refl

-- The inferred TFTP server is the server's address without its port.
pub infer_tftp_lem :
    (c : ℕ) (host port : Text)
    → IsFree b':' (c ∷ host)
    → infer_tftp (c ∷ (host ++ b':' ∷ port)) ≡ c ∷ host
unfolding infer_tftp
infer_tftp_lem c host port h = rw (infer_tftp, before_colon-append (c ∷ host) port h) refl

infer_tftp-IsGiven : (addr : Text) → IsGiven addr → IsGiven (infer_tftp addr)
unfolding infer_tftp text_eq
infer_tftp-IsGiven addr h = elim (Option-cases (before_colon addr)) [
  | inl missing ↦ rw (missing, infer_tftp) h
  | inr (t, found) ↦ elim (List-cases t) [
    | inl nil ↦ rw (found, nil, infer_tftp) h
    | inr (c, rest, is) ↦ rw (found, is, infer_tftp) refl
  ]
]

infer_server_addr-IsGiven :
    (addr : Text) → IsGiven addr → (t : Text) × (infer_server_addr addr ≡ some t) × IsGiven t
unfolding infer_server_addr text_eq
infer_server_addr-IsGiven [] h = absurd (ground arith)
infer_server_addr-IsGiven (c ∷ rest) h = elim (Bool-cases (c == b':')) [
  | inl colon ↦ (codes "localhost" ++ c ∷ rest, rw colon refl, refl)
  | inr other ↦ (c ∷ rest, rw other refl, refl)
]

module _ {Int : Type 0} (env : Environment Int) where
  get_env-IsGiven : (key d : Text) → IsGiven d → IsGiven (get_env env key d)
  unfolding get_env
  get_env-IsGiven key d h = elim (Bool-cases (text_eq (env.getenv key) [])) [
    | inl unset ↦ rw (unset, get_env) h
    | inr set ↦ rw (set, get_env) set
  ]

  trimmed-All : (l : List Text) → All IsGiven (trimmed env l)
  unfolding trimmed
  trimmed-All [] = tt
  trimmed-All (part ∷ rest) = elim (Bool-cases (text_eq (env.trim_space part) [])) [
    | inl nil ↦ rw nil (trimmed-All rest)
    | inr given ↦ rw given (given, trimmed-All rest)
  ]

  -- The list of DNS servers has no empty entry.
  parse_dns_list-All : (s : Text) → All IsGiven (parse_dns_list env s)
  unfolding parse_dns_list
  parse_dns_list-All s = elim (Bool-cases (text_eq s [])) [
    | inl nil ↦ rw (nil, parse_dns_list) tt
    | inr given ↦ rw (given, parse_dns_list) (trimmed-All (split b',' s))
  ]

  find_server_addr-IsGiven :
      (http : Text) → IsGiven http → (a : Text) × (find_server_addr env http ≡ some a) × IsGiven a
  unfolding find_server_addr
  find_server_addr-IsGiven http h =
      elim (Bool-cases (text_eq (get_env env (codes "NF_SERVER_ADDR") []) [])) [
        | inl unset ↦
            let (a, inferred, given) = infer_server_addr-IsGiven http h in
            (a, rw (unset, find_server_addr) inferred, given)
        | inr set ↦ (get_env env (codes "NF_SERVER_ADDR") [], rw (set, find_server_addr) refl, set)
      ]

  tftp_server-IsGiven : (addr : Text) → IsGiven addr → IsGiven (tftp_server env addr)
  unfolding tftp_server
  tftp_server-IsGiven addr h =
      elim (Bool-cases (text_eq (get_env env (codes "NF_DHCP_TFTP_SERVER") []) [])) [
        | inl unset ↦ rw (unset, h, tftp_server) (infer_tftp-IsGiven addr h)
        | inr set ↦ rw (set, tftp_server) set
      ]

  config_of_fields :
      (http addr : Text)
      → ((config_of env http addr).http_addr ≡ http)
        × ((config_of env http addr).server_addr ≡ addr)
        × ((config_of env http addr).dhcp_tftp_server ≡ tftp_server env addr)
        × ((config_of env http addr).dhcp_dns
            ≡ parse_dns_list env (get_env env (codes "NF_DHCP_DNS") (codes "8.8.8.8,8.8.4.4")))
  unfolding config_of
  config_of_fields http addr = (refl, refl, refl, refl)

  load_config_found :
      (addr : Text)
      → find_server_addr env (get_env env (codes "NF_HTTP_ADDR") (codes ":8080")) ≡ some addr
      → load_config env
        ≡ some (config_of env (get_env env (codes "NF_HTTP_ADDR") (codes ":8080")) addr)
  unfolding load_config
  load_config_found addr found = rw (load_config, found) refl

  -- Whatever the environment holds, `LoadConfig` does not panic, and the address of the server, the
  -- TFTP server and every DNS server that it returns are not empty.
  pub load_config_lem :
      (c : Config Int) × (load_config env ≡ some c)
      × IsGiven c.http_addr
      × IsGiven c.server_addr
      × IsGiven c.dhcp_tftp_server
      × All IsGiven c.dhcp_dns
  load_config_lem =
      let http : Text = get_env env (codes "NF_HTTP_ADDR") (codes ":8080") in
      let listens : IsGiven http =
        get_env-IsGiven (codes "NF_HTTP_ADDR") (codes ":8080") (unfold text_eq in refl) in
      let (addr, found, given) = find_server_addr-IsGiven http listens in
      let (is_http, is_addr, is_tftp, is_dns) = config_of_fields http addr in
      (
        config_of env http addr,
        load_config_found addr found,
        rw is_http listens,
        rw is_addr given,
        rw is_tftp (tftp_server-IsGiven addr given),
        rw is_dns
            (parse_dns_list-All (get_env env (codes "NF_DHCP_DNS") (codes "8.8.8.8,8.8.4.4"))),
      )
