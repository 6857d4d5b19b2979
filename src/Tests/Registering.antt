-- ===== src/Tests/Registering.antt =====
-- The registry of src/nexusmcp/modules/registry at concrete inputs: a service is registered, and
-- then updated.
use nexus_mcp.Base.{
  String, none, some, List, [], ◌∷◌, ◌≡◌, refl, String_discrete, is_blank, strip, underscores,
  same_codes,
}
use nexus_mcp.Dict.{Dict, get, put, values, find, index}
use nexus_mcp.Json.{Value, Fields}
use nexus_mcp.Result.{ok}
use nexus_mcp.Action.{Action, pure, ◌>>=◌}
use nexus_mcp.Action.Rules.{Keeps, Keeps-pure}
use nexus_mcp.Catalog.{is_reserved_tool_namespace}
use nexus_mcp.Registry.{
  UpstreamService, UpstreamServiceType, new_upstream, update, upstream_by_id, upstream_by_name,
  add_upstream, save_upstream, clone_upstreams,
}
use nexus_mcp.Registry.Checks.{
  TextPorts, validate_namespace, validate_registration, is_sensitive, contains_sensitive_key,
}
use nexus_mcp.Registry.UseCases.{
  RegistryWorld, RegisterUpstreamCommand, UpdateUpstreamCommand, register_upstream, update_upstream,
  update_observed, insert_body, change_body, change_upstream, save_changed, with_unit_of_work, read,
  write, commit, new_id, registered,
}
use nexus_mcp.Registry.Safe.{Since}
use nexus_mcp.Registry.Reachable.{RegistryOp, run, step, initial, IsSafe, stored-IsSafe}
use nexus_mcp.Tests.Toolsets.{ports, admin}

abbrev texts : TextPorts
texts = record {
  urlsplit = λ s. ok (record { scheme = "https"; netloc = s; username = none; password = none });
  lower = λ cs. cs;
}

abbrev policy : String → Action RegistryWorld (Unit {0})
policy endpoint = pure tt

policy-Since :
    (before : Dict UpstreamService) (endpoint : String)
    → Keeps (Since texts before) (policy endpoint)
policy-Since before endpoint = Keeps-pure tt

abbrev registration : RegisterUpstreamCommand
registration = record {
  context = admin;
  namespace = "crm";
  name = "crm";
  description = none;
  owner = "ann";
  endpoint = "https://crm";
  auth_scheme = none;
  config = Fields.field "timeout" (Value.number "3") Fields.end;
  service_type = UpstreamServiceType.http;
  transport_type = "http";
}

abbrev moving : UpdateUpstreamCommand
moving = record {
  context = admin;
  upstream_service_id = "set";
  description = none;
  owner = "ann";
  endpoint = "https://crm2";
  auth_scheme = none;
  config = Fields.end;
}

abbrev moved : UpstreamService
moved = record (registered registration "set") { endpoint = "https://crm2"; config = Fields.end }

abbrev calls : List RegistryOp
calls = RegistryOp.registering registration ∷ RegistryOp.updating moving ∷ []

stored_moved : get "set" (run texts ports policy calls initial).upstreams ≡ some moved
unfolding run step register_upstream validate_namespace is_reserved_tool_namespace
    validate_registration contains_sensitive_key is_sensitive strip underscores same_codes
    insert_body change_body change_upstream save_changed with_unit_of_work read write commit new_id
    update_upstream update_observed clone_upstreams upstream_by_id upstream_by_name add_upstream
    save_upstream new_upstream update get put values find index is_blank String_discrete ◌>>=◌
stored_moved = refl

stored-IsSafe_example : IsSafe texts moved
stored-IsSafe_example = stored-IsSafe texts ports policy policy-Since calls "set" moved stored_moved
