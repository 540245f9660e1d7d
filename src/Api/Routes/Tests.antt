-- ===== src/Api/Routes/Tests.antt =====
-- Requests to a server with two nodes, routed by the first route that matches.
use nodefoundry.Base.{
  ◌≡◌, refl, Option, none, some, List, [], ◌∷◌, Text, codes, split, text_eq, lookup, false, GoMap,
}
use nodefoundry.Model.{Node, normalize_mac, is_valid_mac, new_node, validate}
use nodefoundry.Db.Bolt.{save, find_by_mac}
use nodefoundry.Db.Bolt.Memory.{Memory, memory_repository, two_nodes}
use nodefoundry.Db.Bolt.Samples.{memory_laws}
use nodefoundry.Ipxe.{Generator, no_query}
use nodefoundry.Dhcp.Server.Samples.{ticks}
use nodefoundry.Api.{Response, RegisterNodeRequest, register_node, one_node, json}
use nodefoundry.Api.Boot.{get_boot_script, get_preseed}
use nodefoundry.Api.Routes.{
  get, post, put, Endpoint, Engine, IsEngine, candidates, Request, Surroundings, serve,
  call_handler, routes,
}
use nodefoundry.Api.Routes.Paths.{boot_path, preseed_path, serve-boot_paths, serve-location}

abbrev first_of : List (Endpoint × GoMap Text) → Option (Endpoint × GoMap Text)
first_of [] = none
first_of (c ∷ rest) = some c

abbrev first_engine : Engine
first_engine = record { find = λ l method path. first_of (candidates l method (split b'/' path)) }

first_engine-IsEngine : IsEngine first_engine
first_engine-IsEngine = record { find_one = λ l method path endpoint params one. rw one refl }

abbrev generator : Generator
generator = record { server_addr = codes "10.0.0.1:8080"; mirror_url = codes "mirror" }

abbrev surroundings : Surroundings
surroundings = record {
  clock = ticks;
  agent_missing = false;
  agent_data = none;
  uptime = codes "1s";
}

abbrev new_request : RegisterNodeRequest
new_request = record { mac = codes "02:00:00:00:00:0A"; ip = codes "10.0.0.9" }

abbrev request : Request
request = record {
  method = put;
  path = [];
  register_body = some new_request;
  action = none;
  query = no_query;
}

serve-boot_paths_example :
    (serve memory_repository generator first_engine surroundings
        (record request { method = get; path = boot_path (codes "aabbccddeeff") })
        two_nodes
      ≡ (get_boot_script memory_repository generator (codes "aabbccddeeff") two_nodes, two_nodes))
    × (serve memory_repository generator first_engine surroundings
          (record request { method = get; path = preseed_path (codes "aabbccddeeff") })
          two_nodes
        ≡ (
          get_preseed memory_repository generator (codes "aabbccddeeff") no_query two_nodes,
          two_nodes,
        ))
serve-boot_paths_example =
    serve-boot_paths memory_repository generator first_engine first_engine-IsEngine surroundings
      request (codes "aabbccddeeff") two_nodes
      (
        (
          refl,
          (
            refl,
            (refl, (refl, (refl, (refl, (refl, (refl, (refl, (refl, (refl, (refl, tt)))))))))),
          ),
        ),
        unfold text_eq in refl,
      )

abbrev answered : Response × Memory
answered =
    serve memory_repository generator first_engine surroundings
      (record request { method = post; path = codes "/api/v1/nodes" }) two_nodes

serve-location_example :
    (n : Node) × (answered.0.body ≡ one_node (some n))
    × (serve memory_repository generator first_engine surroundings
          (record request { method = get; path = answered.0.location })
          answered.1
        ≡ (json 200 (one_node (some n)), answered.1))
serve-location_example =
    serve-location memory_repository generator first_engine first_engine-IsEngine memory_laws
      surroundings surroundings request request new_request two_nodes refl
      (unfold serve call_handler routes split register_node find_by_mac save validate new_node
          is_valid_mac text_eq lookup normalize_mac in
        refl)
