-- ===== src/Config.antt =====
-- internal/server/config.go: the settings of the server, from the environment. `os.Getenv` is the
-- argument `env`; `strconv.Atoi`, whose errors are `none`, `strings.TrimSpace` and `strings.ToLower`
-- are parameters.
pub mod Defaults
pub mod Samples
mod Tests
use nodefoundry.Base.{
  ℕ, Bool, not, ◌||◌, Option, none, some, List, [], ◌∷◌, ◌++◌, ◌==◌, if◌then◌else◌, Text, codes,
  text_eq, split,
}

-- The functions of the library, and what `os.Getenv` returns for each name.
pub record Environment (Int : Type 0) : Type 0 where
  pub getenv : Text → Text
  pub atoi : Text → Option Int
  pub trim_space : Text → Text
  pub to_lower : Text → Text
  pub int : ℕ → Int

pub record Config (Int : Type 0) : Type 0 where
  pub http_addr : Text
  pub dhcp_addr : Text
  pub dhcp_interface : Text
  pub dhcp_tftp_server : Text
  pub dhcp_proxy_mode : Bool
  pub mqtt_broker : Text
  pub mirror_url : Text
  pub db_path : Text
  pub log_level : Text
  pub server_addr : Text
  pub dhcp_ip_pool_start : Text
  pub dhcp_ip_pool_end : Text
  pub dhcp_netmask : Text
  pub dhcp_gateway : Text
  pub dhcp_dns : List Text
  pub dhcp_lease_time : Int

-- Go code that indexes an empty string panics; this is `none`.
unfoldable pub first_char : Text → Option ℕ
first_char [] = none
first_char (c ∷ _) = some c

-- The text before the first colon, or `none` if there is none: `serverAddr[:idx]`.
unfoldable pub before_colon : Text → Option Text
before_colon [] = none
before_colon (c ∷ rest) =
    let later = before_colon rest in
    if c == b':' then some [] else elim later [ none ↦ none | some t ↦ some (c ∷ t) ]

-- The TFTP server inferred from the server's address; a colon at index 0 does not count.
unfoldable pub infer_tftp : Text → Text
unfolding before_colon
infer_tftp server_addr = elim (before_colon server_addr) [
  | none ↦ server_addr
  | some [] ↦ server_addr
  | some (c ∷ t) ↦ c ∷ t
]

-- The server's address inferred from the address that HTTP listens on.
unfoldable pub infer_server_addr : Text → Option Text
unfolding first_char
infer_server_addr http_addr = elim (first_char http_addr) [
  | none ↦ none
  | some c ↦ some (if c == b':' then codes "localhost" ++ http_addr else http_addr)
]

module _ {Int : Type 0} (env : Environment Int) where
  -- `getEnv`
  unfoldable pub get_env : Text → Text → Text
  get_env key default_val = if text_eq (env.getenv key) [] then default_val else env.getenv key

  -- The loop of `parseDNSList`
  unfoldable pub trimmed : List Text → List Text
  trimmed [] = []
  trimmed (part ∷ rest) =
      let later = trimmed rest in
      if text_eq (env.trim_space part) [] then later else env.trim_space part ∷ later

  -- `parseDNSList`
  unfoldable pub parse_dns_list : Text → List Text
  unfolding trimmed
  parse_dns_list s = if text_eq s [] then [] else trimmed (split b',' s)

  -- `parseInt`
  unfoldable pub parse_int : Text → Int → Int
  parse_int s default_val = elim (env.atoi s) [ none ↦ default_val | some n ↦ n ]

  -- `parseBool`
  unfoldable pub parse_bool : Text → Bool
  parse_bool s = text_eq (env.to_lower s) (codes "true") || text_eq s (codes "1")

  -- The server's address, given or inferred; `none` is a panic.
  unfoldable pub find_server_addr : Text → Option Text
  unfolding get_env infer_server_addr
  find_server_addr http_addr =
      let given_addr = get_env (codes "NF_SERVER_ADDR") [] in
      let inferred = infer_server_addr http_addr in
      if text_eq given_addr [] then inferred else some given_addr

  -- The TFTP server, given or inferred.
  unfoldable pub tftp_server : Text → Text
  unfolding get_env infer_tftp
  tftp_server server_addr =
      let given_tftp = get_env (codes "NF_DHCP_TFTP_SERVER") [] in
      if text_eq given_tftp []
      then if text_eq server_addr [] then given_tftp else infer_tftp server_addr
      else given_tftp

  -- The record that `LoadConfig` returns.
  unfoldable pub config_of : Text → Text → Config Int
  unfolding get_env tftp_server parse_dns_list parse_int parse_bool
  config_of http_addr server_addr = record {
    http_addr = http_addr;
    dhcp_addr = get_env (codes "NF_DHCP_ADDR") (codes ":67");
    dhcp_interface = get_env (codes "NF_DHCP_INTERFACE") [];
    dhcp_tftp_server = tftp_server server_addr;
    dhcp_proxy_mode = parse_bool (get_env (codes "NF_DHCP_PROXY_MODE") (codes "false"));
    mqtt_broker = get_env (codes "NF_MQTT_BROKER") (codes "localhost:1883");
    mirror_url = get_env (codes "NF_MIRROR_URL") (codes "mirrors.ustc.edu.cn");
    db_path = get_env (codes "NF_DB_PATH") (codes "/var/lib/nodefoundry/nodes.db");
    log_level = get_env (codes "NF_LOG_LEVEL") (codes "info");
    server_addr = server_addr;
    dhcp_ip_pool_start = get_env (codes "NF_DHCP_IP_POOL_START") [];
    dhcp_ip_pool_end = get_env (codes "NF_DHCP_IP_POOL_END") [];
    dhcp_netmask = get_env (codes "NF_DHCP_NETMASK") (codes "255.255.255.0");
    dhcp_gateway = get_env (codes "NF_DHCP_GATEWAY") [];
    dhcp_dns = parse_dns_list (get_env (codes "NF_DHCP_DNS") (codes "8.8.8.8,8.8.4.4"));
    dhcp_lease_time =
        parse_int (get_env (codes "NF_DHCP_LEASE_TIME") (codes "86400")) (env.int 86400);
  }

  -- `LoadConfig`; `none` is a panic.
  unfoldable pub load_config : Option (Config Int)
  unfolding get_env find_server_addr config_of
  load_config =
      let http_addr = get_env (codes "NF_HTTP_ADDR") (codes ":8080") in
      elim (find_server_addr http_addr) [
        | none ↦ none
        | some server_addr ↦ some (config_of http_addr server_addr)
      ]
