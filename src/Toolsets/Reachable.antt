-- ===== src/Toolsets/Reachable.antt =====
-- Any sequence of calls of the use cases of src/nexusmcp/modules/toolsets/use_cases.py, in any
-- order and by any clients, from an empty repository.
use nexus_mcp.Base.{ℕ, String, some, List, [], ◌∷◌, ◌≡◌, refl, ap, arith, ◌≢◌, ◌∙◌}
use nexus_mcp.Dict.{Dict, get, values, select, repeats}
use nexus_mcp.Action.Rules.{Keeps}
use nexus_mcp.Context.{ActorContext}
use nexus_mcp.Store.{Ports}
use nexus_mcp.Toolsets.{
  Toolset, ToolsetKind, Digests, is_all_published, ids_of_members, ToolsetStatus,
}
use nexus_mcp.Toolsets.Catalog.{ToolsetCatalogSnapshot}
use nexus_mcp.Toolsets.Store.{ToolsetWorld, same_slug}
use nexus_mcp.Toolsets.UseCases.{
  CreateToolsetCommand, UpdateToolsetCommand, ReplaceToolsetMembersCommand,
  ReplaceToolsetGrantsCommand, ChangeToolsetStatusCommand, get_toolset, create_toolset,
  update_toolset, replace_toolset_members, replace_toolset_grants, activate_toolset,
  disable_toolset,
}
use nexus_mcp.Toolsets.Ensure.{ensure_all_published}
use nexus_mcp.Toolsets.Listing.{ListToolsetsQuery, list_toolsets}
use nexus_mcp.Dict.Keyed.{Keyed-get}
use nexus_mcp.Toolsets.Uniqueness.{clash-get}
use nexus_mcp.Toolsets.Writes.{no_selection, Later, Grows-refl}
use nexus_mcp.Toolsets.Valid.{valid-digest, valid-members}
use nexus_mcp.Toolsets.Invariant.{id_of, Inv, same_tenant, published, always}
use nexus_mcp.Toolsets.Keeping.{Holds, Sound, Keeps-with_unit_of_work, session_rules}
use nexus_mcp.Toolsets.Serving.{
  get_toolset-Sound, create_toolset-Sound, update_toolset-Sound, replace_toolset_members-Sound,
  replace_toolset_grants-Sound, activate_toolset-Sound, disable_toolset-Sound,
}
use nexus_mcp.Toolsets.Ensuring.{ensure_all_published-Sound}
use nexus_mcp.Base.Order.{sorted_set}

-- One call of a use case. `publishing` is a change of the catalogue, and `wait` is time that
-- passes and identifiers that other parts take.
pub data ToolsetOp : Type 0 where
  creating : CreateToolsetCommand → ToolsetOp
  updating : UpdateToolsetCommand → ToolsetOp
  replacing_members : ReplaceToolsetMembersCommand → ToolsetOp
  replacing_grants : ReplaceToolsetGrantsCommand → ToolsetOp
  activating disabling : ChangeToolsetStatusCommand → ToolsetOp
  ensuring : String → List String → ToolsetOp
  looking : ActorContext → String → ToolsetOp
  listing : ListToolsetsQuery → ToolsetOp
  publishing : List ToolsetCatalogSnapshot → ToolsetOp
  wait : ℕ → ℕ → ToolsetOp

abbrev pub initial : ToolsetWorld
initial = record { toolsets = []; snapshots = []; ticks = 0; issued = 0 }

module _ (casefold : List ℕ → List ℕ) (ports : Ports) (digests : Digests) where
  -- The world after the call, whether it returned or raised.
  unfoldable pub step : ToolsetOp → ToolsetWorld → ToolsetWorld
  step (creating c) w = (create_toolset ports digests c w).1
  step (updating c) w = (update_toolset ports digests c w).1
  step (replacing_members c) w = (replace_toolset_members ports digests c w).1
  step (replacing_grants c) w = (replace_toolset_grants ports digests c w).1
  step (activating c) w = (activate_toolset ports digests c w).1
  step (disabling c) w = (disable_toolset ports digests c w).1
  step (ensuring tenant_id principal_ids) w =
      (ensure_all_published ports digests tenant_id principal_ids w).1
  step (looking context id) w = (get_toolset context id w).1
  step (listing query) w = (list_toolsets casefold query w).1
  step (publishing snapshots) w = record w { snapshots = snapshots }
  step (wait ticks issued) w = record w { ticks = ticks; issued = issued }

  unfoldable pub run : List ToolsetOp → ToolsetWorld → ToolsetWorld
  run [] w = w
  run (op ∷ ops) w = run ops (step op w)

  module _ (start : Dict Toolset) where
    list_toolsets-Sound :
        (query : ListToolsetsQuery) → Keeps (Sound digests start) (list_toolsets casefold query)
    unfolding list_toolsets
    list_toolsets-Sound query =
        Keeps-with_unit_of_work digests start _ (search session_rules depth 8)

    step-Sound :
        (op : ToolsetOp) (w : ToolsetWorld)
        → Sound digests start w
        → Sound digests start (step op w)
    unfolding step
    step-Sound (creating c) w h = (create_toolset-Sound digests start ports c).kept w h
    step-Sound (updating c) w h = (update_toolset-Sound digests start ports c).kept w h
    step-Sound (replacing_members c) w h =
        (replace_toolset_members-Sound digests start ports c).kept w h
    step-Sound (replacing_grants c) w h =
        (replace_toolset_grants-Sound digests start ports c).kept w h
    step-Sound (activating c) w h = (activate_toolset-Sound digests start ports c).kept w h
    step-Sound (disabling c) w h = (disable_toolset-Sound digests start ports c).kept w h
    step-Sound (ensuring t ps) w h = (ensure_all_published-Sound digests start ports t ps).kept w h
    step-Sound (looking context id) w h =
        (get_toolset-Sound digests start ports context id).kept w h
    step-Sound (listing query) w h = (list_toolsets-Sound query).kept w h
    step-Sound (publishing snapshots) w h = h
    step-Sound (wait ticks issued) w h = h

    run-Sound :
        (ops : List ToolsetOp) (w : ToolsetWorld)
        → Sound digests start w
        → Sound digests start (run ops w)
    unfolding run
    run-Sound [] w h = h
    run-Sound (op ∷ ops) w h = run-Sound ops (step op w) (step-Sound op w h)

  initial-Holds : Holds digests [] []
  unfolding repeats values select get
  initial-Holds = record {
    inv = record { keyed = tt; slugs = refl; systems = refl; valid = λ k t e. ground arith };
    grown = Grows-refl [];
  }

  reached : (ops : List ToolsetOp) → Inv digests (run ops initial).toolsets
  reached ops = (run-Sound [] ops initial initial-Holds).inv

  -- After every sequence of calls from an empty repository, two stored tool sets of one tenant with
  -- the same slug are stored under the same identifier.
  pub slug_single :
      (ops : List ToolsetOp) (j k : String) (t u : Toolset)
      → get j (run ops initial).toolsets ≡ some t
      → get k (run ops initial).toolsets ≡ some u
      → t.tenant_id ≡ u.tenant_id
      → t.slug ≡ u.slug
      → j ≡ k
  unfolding same_slug
  slug_single ops j k t u p q tenant slug =
      clash-get same_slug always t u j k (run ops initial).toolsets
        (no_selection _ ∙ (reached ops).slugs) p q refl refl (ground arith) (ground arith)

  -- After every sequence of calls from an empty repository, two stored tool sets of one tenant that
  -- are of the kind `all_published` are stored under the same identifier.
  pub all_published_single :
      (ops : List ToolsetOp) (j k : String) (t u : Toolset)
      → get j (run ops initial).toolsets ≡ some t
      → get k (run ops initial).toolsets ≡ some u
      → t.tenant_id ≡ u.tenant_id
      → t.kind ≡ ToolsetKind.all_published
      → u.kind ≡ ToolsetKind.all_published
      → j ≡ k
  all_published_single ops j k t u p q same a b =
      clash-get same_tenant published t u j k (run ops initial).toolsets (reached ops).systems p q
        (ap is_all_published a) (ap is_all_published b) (ground arith) (ground arith)

  -- A tool set that is stored after some calls is stored after any further calls too, under its
  -- identifier, with its tenant, slug and kind; it is the same tool set, or its revision is greater.
  pub stored-Later :
      (earlier more : List ToolsetOp) (k : String) (t : Toolset)
      → get k (run earlier initial).toolsets ≡ some t
      → (u : Toolset) × (get k (run more (run earlier initial)).toolsets ≡ some u) × Later t u
  stored-Later earlier more k t p =
      let d = (run earlier initial).toolsets in
      (run-Sound d more (run earlier initial)
          (record { inv = reached earlier; grown = Grows-refl d })).grown
        k t p

  -- After every sequence of calls from an empty repository, a stored tool set stands under its
  -- identifier; if it is explicit, its digest is that of the sorted set of its tools, and if it is
  -- active too, it has a member.
  pub stored-IsSound :
      (ops : List ToolsetOp) (k : String) (t : Toolset)
      → get k (run ops initial).toolsets ≡ some t
      → (k ≡ t.id)
        × (t.kind ≡ ToolsetKind.explicit
            → t.membership_digest ≡ digests.of_explicit (sorted_set (ids_of_members t.members)))
        × (t.kind ≡ ToolsetKind.explicit → t.status ≡ ToolsetStatus.active → t.members ≢ [])
  stored-IsSound ops k t p =
      let v = (reached ops).valid k t p in
      (
        Keyed-get id_of k t (run ops initial).toolsets (reached ops).keyed p,
        valid-digest digests t v,
        valid-members digests t v,
      )
