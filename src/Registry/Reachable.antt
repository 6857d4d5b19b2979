-- ===== src/Registry/Reachable.antt =====
-- Any sequence of calls of the use cases of src/nexusmcp/modules/registry/use_cases.py, from an
-- empty registry.
use nexus_mcp.Base.{
  String, true, false, none, some, List, [], ◌∷◌, ◌≡◌, ◌⊎◌, refl, arith, inl, inr, ◌==◌, ◌||◌,
}
use nexus_mcp.Dict.{Dict, get}
use nexus_mcp.Json.{Value}
use nexus_mcp.Result.{ok, Result-cases}
use nexus_mcp.Action.{Action}
use nexus_mcp.Action.Rules.{Keeps}
use nexus_mcp.Context.{ActorContext}
use nexus_mcp.Store.{Ports}
use nexus_mcp.Registry.{UpstreamService, UpstreamServiceType}
use nexus_mcp.Registry.Checks.{
  TextPorts, SplitUrl, contains_sensitive_key, validate_registration, check_parts, check_endpoint,
}
use nexus_mcp.Registry.UseCases.{
  RegistryWorld, RegisterUpstreamCommand, UpdateUpstreamCommand, DisableUpstreamCommand,
  register_upstream, update_upstream, disable_upstream, list_upstreams, with_unit_of_work, read,
}
use nexus_mcp.Registry.Safe.{Since, IsChecked, disable_upstream-Since}
use nexus_mcp.Registry.Serving.{register_upstream-Since, update_upstream-Since}

-- One call of a use case.
pub data RegistryOp : Type 0 where
  registering : RegisterUpstreamCommand → RegistryOp
  updating : UpdateUpstreamCommand → RegistryOp
  disabling : DisableUpstreamCommand → RegistryOp
  listing : ActorContext → RegistryOp

abbrev pub initial : RegistryWorld
initial = record { upstreams = []; issued = 0 }

module _ (texts : TextPorts) where
  -- No key of the configuration names a secret, at any depth, and the endpoint of an HTTP service
  -- is a URL of the scheme http or https without a user name or a password.
  pub record IsSafe (u : UpstreamService) : Type 0 where
    pub without_secrets : contains_sensitive_key texts (Value.object u.config) ≡ false
    pub endpoint :
        (u.service_type ≡ UpstreamServiceType.remote_mcp)
        ⊎ ((parts : SplitUrl) × (texts.urlsplit u.endpoint ≡ ok parts)
            × ((parts.scheme == "http" || parts.scheme == "https") ≡ true)
            × (parts.username ≡ none)
            × (parts.password ≡ none))

  split_checked :
      (parts : SplitUrl)
      → check_parts texts parts ≡ ok tt
      → ((parts.scheme == "http" || parts.scheme == "https") ≡ true)
        × (parts.username ≡ none)
        × (parts.password ≡ none)
  split_checked parts h = (ground arith, ground arith, ground arith)

  endpoint_checked :
      (service_type : UpstreamServiceType) (endpoint : String)
      → check_endpoint texts service_type endpoint ≡ ok tt
      → (service_type ≡ UpstreamServiceType.remote_mcp)
        ⊎ ((parts : SplitUrl) × (texts.urlsplit endpoint ≡ ok parts)
            × ((parts.scheme == "http" || parts.scheme == "https") ≡ true)
            × (parts.username ≡ none)
            × (parts.password ≡ none))
  endpoint_checked UpstreamServiceType.remote_mcp endpoint h = inl refl
  endpoint_checked UpstreamServiceType.http endpoint h =
      elim (Result-cases (texts.urlsplit endpoint)) [
        | inr (x, q) ↦ ground arith
        | inl (parts, q) ↦
            let (scheme, username, password) = split_checked parts (ground arith) in
            inr (parts, q, scheme, username, password)
      ]

  checked-IsSafe : (u : UpstreamService) → IsChecked texts u → IsSafe u
  unfolding validate_registration
  checked-IsSafe u h = record {
    without_secrets = ground arith;
    endpoint = endpoint_checked u.service_type u.endpoint (ground arith);
  }

  module _ (ports : Ports) (policy : String → Action RegistryWorld (Unit {0})) where
    -- The registry after the call, whether it returned or raised.
    unfoldable pub step : RegistryOp → RegistryWorld → RegistryWorld
    step (registering c) w = (register_upstream texts policy ports c w).1
    step (updating c) w = (update_upstream texts policy c w).1
    step (disabling c) w = (disable_upstream c w).1
    step (listing context) w = (list_upstreams context w).1

    unfoldable pub run : List RegistryOp → RegistryWorld → RegistryWorld
    run [] w = w
    run (op ∷ ops) w = run ops (step op w)

    module _
        (quiet : (start : Dict UpstreamService) (endpoint : String)
          → Keeps (Since texts start) (policy endpoint)) where
      step-Since :
          (op : RegistryOp) (w : RegistryWorld) → Since texts [] w → Since texts [] (step op w)
      unfolding step list_upstreams with_unit_of_work read
      step-Since (registering c) w h =
          (register_upstream-Since texts policy quiet [] ports c).kept w h
      step-Since (updating c) w h = (update_upstream-Since texts policy quiet [] c).kept w h
      step-Since (disabling c) w h = (disable_upstream-Since texts [] c).kept w h
      step-Since (listing context) w h = h

      run-Since :
          (ops : List RegistryOp) (w : RegistryWorld)
          → Since texts [] w
          → Since texts [] (run ops w)
      unfolding run
      run-Since [] w h = h
      run-Since (op ∷ ops) w h = run-Since ops (step op w) (step-Since op w h)

      -- After any sequence of calls from an empty registry, every stored service is safe: no key
      -- of its configuration names a secret, at any depth, and the endpoint of an HTTP service is a
      -- URL of the scheme http or https without a user name or a password. This supposes of the
      -- policy of endpoints, and of the other clients that are served while it is awaited, that
      -- they keep services checked, stored and of their type.
      pub stored-IsSafe :
          (ops : List RegistryOp) (k : String) (u : UpstreamService)
          → get k (run ops initial).upstreams ≡ some u
          → IsSafe u
      unfolding get
      stored-IsSafe ops k u p =
          let start : Since texts [] initial = record {
            keyed = tt;
            checked = λ i v q. ground arith;
            kept = λ i v q. ground arith;
          } in
          checked-IsSafe u ((run-Since ops initial start).checked k u p)
