-- ===== src/Toolsets/Listing.antt =====
-- `ListToolsets` of src/nexusmcp/modules/toolsets/use_cases.py, and `Page` of
-- src/nexusmcp/modules/control_plane/read_models.py. `str.casefold` is an argument, on code points.
use nexus_mcp.Base.{
  ℕ, zero, suc, String, Bool, true, ◌&&◌, Option, none, some, List, [], ◌∷◌, ◌++◌, map, length,
  codes, strip, is_empty, if◌then◌else◌, is_part,
}
use nexus_mcp.Dict.{select}
use nexus_mcp.Action.{Action, pure, ◌>>=◌}
use nexus_mcp.Context.{ActorContext}
use nexus_mcp.Toolsets.{Toolset, ToolsetKind, ToolsetStatus, ToolsetDiscoveryMode, same_mode}
use nexus_mcp.Toolsets.Store.{ToolsetWorld, list_by_tenant, with_unit_of_work}
use nexus_mcp.Toolsets.Repository.{same_kind, same_status}
use nexus_mcp.Toolsets.Profiles.{ToolsetProfile, profile}
use nexus_mcp.Toolsets.UseCases.{read, read_catalog}

pub record ListToolsetsQuery : Type 0 where
  pub context : ActorContext
  pub offset : ℕ
  pub limit : ℕ
  pub text : Option String
  pub status : Option ToolsetStatus
  pub kind : Option ToolsetKind
  pub discovery_mode : Option ToolsetDiscoveryMode

pub record Page (A : Type 0) : Type 0 where
  pub items : List A
  pub offset : ℕ
  pub limit : ℕ
  pub total : ℕ

module _ {A : Type 0} where
  -- `xs[n:]`
  unfoldable pub drop : ℕ → List A → List A
  drop zero xs = xs
  drop (suc n) [] = []
  drop (suc n) (x ∷ xs) = drop n xs

  -- `xs[:n]`
  unfoldable pub take : ℕ → List A → List A
  take zero xs = []
  take (suc n) [] = []
  take (suc n) (x ∷ xs) = x ∷ take n xs

  -- `condition is None or value is condition`
  abbrev pub admits : (A → A → Bool) → A → Option A → Bool
  admits same value none = true
  admits same value (some condition) = same value condition

module _ (casefold : List ℕ → List ℕ) where
  -- `text is None or text in f"{toolset.name} {toolset.slug}".casefold()`
  unfoldable pub matches_text : Option String → Toolset → Bool
  unfolding is_part strip
  matches_text none t = true
  matches_text (some text) t =
      if is_empty text
      then true
      else is_part (strip (casefold (codes text)))
          (casefold (codes t.name ++ codes " " ++ codes t.slug))

  -- The condition of `selected`.
  unfoldable pub selects : ListToolsetsQuery → Toolset → Bool
  unfolding matches_text
  selects query t =
      matches_text query.text t
      && admits same_status t.status query.status
      && admits same_kind t.kind query.kind
      && admits same_mode t.discovery_mode query.discovery_mode

  -- `ListToolsets.execute`
  unfoldable pub list_toolsets : ListToolsetsQuery → Action ToolsetWorld (Page ToolsetProfile)
  unfolding read read_catalog
  list_toolsets query = with_unit_of_work do
    candidates ← read (list_by_tenant query.context.tenant_id)
    let selected = select (selects query) candidates
    let window = take query.limit (drop query.offset selected)
    profiles ← read_catalog (λ snapshots. map (profile snapshots) window)
    pure (record {
      items = profiles;
      offset = query.offset;
      limit = query.limit;
      total = length selected;
    })
