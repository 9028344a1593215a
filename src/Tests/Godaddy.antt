-- ===== src/Tests/Godaddy.antt =====
-- The GoDaddy adapter over a service that knows one agent: internal/registry/godaddy.go.
use route_ans.Prelude.{refl, none, some, [], ◌∷◌, ◌++◌, codes, text_eq, if◌then◌else◌}
use route_ans.Registry.Record.{Record}
use route_ans.Registry.Godaddy.{AgentDetails, strip_prefix, map_status, build_record}
use route_ans.Registry.Godaddy.Lookup.{
  Service, cut, public_url, link_to, last_link, make_request, get_certificates, find_agent, lookup,
  lookup_by_fqdn,
}
use route_ans.Registry.Godaddy.Lookup.Served.{ServedName, lookup-Served}
use route_ans.Tests.Requests.{requests}
use route_ans.Tests.Versions.{first}

lookups : Unit {0}
unfolding requests strip_prefix map_status build_record cut public_url link_to last_link
    make_request get_certificates find_agent lookup lookup_by_fqdn
lookups = tt

abbrev details : AgentDetails
details = record {
  agent_display_name = codes "Chat";
  agent_host = codes "chat.example.com";
  version = codes "1.2.3";
  protocol = codes "mcp";
  ans_name = codes "mcp://chat";
  agent_status = codes "ACTIVE";
  agent_description = [];
  registration_timestamp = [];
  endpoints = [];
}

abbrev service : Service
service = record {
  base_url = codes "https://api";
  client = λ method url body. some (200, url);
  encode_request = λ host version. host ++ version;
  decode_resolution = λ body. some (
      record { rel = codes "agent-details"; href = codes "https://ra.int.godaddy.com/v1/agents/7" }
      ∷ []);
  decode_details =
      λ body. if text_eq body (codes "https://api/agents/7") then some (details, []) else none;
  decode_certificates = λ body. none;
  parse_time = λ t. none;
  pem_decode = λ t. none;
  sha256 = λ t. t;
  hex = λ t. t;
}

abbrev agent : Record
agent = build_record (λ t. none) 9 details none none

lookup-Served_example : ServedName service 9 first agent
unfolding lookups
lookup-Served_example = lookup-Served service 9 first {r = agent} refl
