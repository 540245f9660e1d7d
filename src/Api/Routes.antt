-- ===== src/Api/Routes.antt =====
-- `RegisterRoutes` of internal/api/handler.go, and the handlers of files and of the health check. gin
-- is a parameter; its recovery and log middleware, and the headers for the type of the content, are
-- left out.
pub mod Paths
mod Tests
use nodefoundry.Base.{
  ℕ, Bool, true, false, Option, none, some, List, [], ◌∷◌, ◌++◌, ◌≡◌, ◌==◌, if◌then◌else◌, Text,
  codes, text_eq, GoMap, lookup, split,
}
use nodefoundry.Model.{Time}
use nodefoundry.Db.{NodeRepository}
use nodefoundry.Ipxe.{Generator, Netcfg}
use nodefoundry.Api.{
  RegisterNodeRequest, Response, error_response, json, text_body, health_body, list_nodes, get_node,
  register_node, update_node,
}
use nodefoundry.Api.Boot.{get_boot_script, get_preseed}

-- `GetAgentBinary`, of whether `os.Stat` says that there is no file, and of what `os.ReadFile` reads.
unfoldable pub get_agent_binary : Bool → Option Text → Response
get_agent_binary true data' = error_response 404 (codes "agent binary not found")
get_agent_binary false none = error_response 500 (codes "failed to read agent binary")
get_agent_binary false (some data') = json 200 (text_body data')

-- `GetAgentServiceFile`
unfoldable pub get_agent_service_file : Response
get_agent_service_file = json 200 (
    text_body (
      codes
        "[Unit]\nDescription=NodeFoundry Agent\nAfter=network-online.target\nWants=network-online.target\n\n[Service]\nType=simple\nExecStart=/usr/local/bin/nodefoundry-agent\nRestart=always\nRestartSec=10\nEnvironmentFile=/etc/default/nodefoundry-agent\n\n[Install]\nWantedBy=multi-user.target\n"))

-- `HealthCheck`, of the time since the start, in the format of `time.Duration`.
unfoldable pub health_check : Text → Response
health_check uptime = json 200 (health_body (codes "ok") uptime)

pub data Method : Type 0 where
  get post put : Method

pub data Endpoint : Type 0 where
  list_nodes_handler get_node_handler register_node_handler update_node_handler : Endpoint
  boot_script_handler preseed_handler agent_binary_handler agent_service_handler : Endpoint
  health_handler : Endpoint

pub record Route : Type 0 where
  pub method : Method
  pub pattern : Text
  pub endpoint : Endpoint

abbrev route : Method → Text → Endpoint → Route
route method pattern endpoint = record { method = method; pattern = pattern; endpoint = endpoint }

abbrev nodes_group : Text
nodes_group = codes "/api/v1" ++ codes "/nodes"

-- `RegisterRoutes`
unfoldable pub routes : List Route
routes =
    route get (nodes_group ++ []) list_nodes_handler
    ∷ route get (nodes_group ++ codes "/:mac") get_node_handler
    ∷ route post (nodes_group ++ []) register_node_handler
    ∷ route put (nodes_group ++ codes "/:mac") update_node_handler
    ∷ route get (codes "/boot/:mac/boot.ipxe") boot_script_handler
    ∷ route get (codes "/preseed/:mac/preseed.cfg") preseed_handler
    ∷ route get (codes "/agent/nodefoundry-agent") agent_binary_handler
    ∷ route get (codes "/agent/nodefoundry-agent.service") agent_service_handler
    ∷ route get (codes "/health") health_handler
    ∷ []

-- Whether a segment of a pattern is that of a path, with the parameters so far behind it.
abbrev match_segment : Text → Text → Option (GoMap Text) → Option (GoMap Text)
match_segment (c ∷ name) value behind =
    if c == b':'
    then (if text_eq value []
        then none
        else elim behind [ none ↦ none | some params ↦ some ((name, value) ∷ params) ])
    else if text_eq (c ∷ name) value
    then behind
    else none
match_segment [] value behind = if text_eq [] value then behind else none

-- What gin documents of a pattern: `:name` stands for one part of the path that is not empty, and any
-- other part for itself.
abbrev pub match_segments : List Text → List Text → Option (GoMap Text)
match_segments [] [] = some []
match_segments (p ∷ pattern) (s ∷ path) =
    let behind = match_segments pattern path in match_segment p s behind
match_segments _ _ = none

abbrev same_method : Method → Method → Bool
same_method get get = true
same_method post post = true
same_method put put = true
same_method _ _ = false

-- The routes that a request matches, by the parts of its path, with their parameters.
abbrev pub candidates : List Route → Method → List Text → List (Endpoint × GoMap Text)
candidates [] method path = []
candidates (r ∷ rest) method path =
    let later = candidates rest method path in
    if same_method r.method method
    then elim (match_segments (split b'/' r.pattern) path) [
      | none ↦ later
      | some params ↦ (r.endpoint, params) ∷ later
    ]
    else later

-- What gin does with a request: the handler and its parameters, if there is a route.
pub record Engine : Type 0 where
  pub find : List Route → Method → Text → Option (Endpoint × GoMap Text)

-- A request that matches one route goes to its handler.
pub record IsEngine (engine : Engine) : Type 0 where
  pub find_one :
      (l : List Route) (method : Method) (path : Text) (endpoint : Endpoint) (params : GoMap Text)
      → candidates l method (split b'/' path) ≡ (endpoint, params) ∷ []
      → engine.find l method path ≡ some (endpoint, params)

-- What the handlers read of a request: `none` is a body that does not bind.
pub record Request : Type 0 where
  pub method : Method
  pub path : Text
  pub register_body : Option RegisterNodeRequest
  pub action : Option Text
  pub query : Netcfg

-- What the handlers read beside the request: the clock, the file of the agent, and the uptime.
pub record Surroundings : Type 0 where
  pub clock : ℕ → Time
  pub agent_missing : Bool
  pub agent_data : Option Text
  pub uptime : Text

-- `c.Param(name)`
abbrev param : GoMap Text → Text → Text
param params name = elim (lookup params name) [ none ↦ [] | some value ↦ value ]

module _ {S : Type 0} (repo : NodeRepository S) (g : Generator) where
  unfoldable pub call_handler : Surroundings → Request → Endpoint → GoMap Text → S → Response × S
  unfolding get_agent_binary get_agent_service_file health_check
  call_handler env req list_nodes_handler params s = (list_nodes repo s, s)
  call_handler env req get_node_handler params s = (get_node repo (param params (codes "mac")) s, s)
  call_handler env req register_node_handler params s =
      register_node repo env.clock req.register_body s
  call_handler env req update_node_handler params s =
      update_node repo (env.clock 0) (param params (codes "mac")) req.action s
  call_handler env req boot_script_handler params s =
      (get_boot_script repo g (param params (codes "mac")) s, s)
  call_handler env req preseed_handler params s =
      (get_preseed repo g (param params (codes "mac")) req.query s, s)
  call_handler env req agent_binary_handler params s =
      (get_agent_binary env.agent_missing env.agent_data, s)
  call_handler env req agent_service_handler params s = (get_agent_service_file, s)
  call_handler env req health_handler params s = (health_check env.uptime, s)

  -- A request to the server, whose router has the routes of `RegisterRoutes`.
  unfoldable pub serve : Engine → Surroundings → Request → S → Response × S
  unfolding routes call_handler
  serve engine env req s = elim (engine.find routes req.method req.path) [
    | none ↦ (json 404 (text_body (codes "404 page not found")), s)
    | some (endpoint, params) ↦ call_handler env req endpoint params s
  ]
