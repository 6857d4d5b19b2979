-- ===== src/Catalog/Versions.antt =====
-- The life of a tool version, src/nexusmcp/modules/catalog/domain.py, and what the writes of
-- src/nexusmcp/modules/catalog/adapters/in_memory.py do to the published versions.
use nexus_mcp.Base.{ℕ, String, Bool, true, false, none, some, ◌≡◌, arith, [], ◌∷◌, List}
use nexus_mcp.Dict.{Dict, get, put, values, find}
use nexus_mcp.Dict.Laws.{get-put, get-find-none}
use nexus_mcp.Dict.Keyed.{Keyed, find-get}
use nexus_mcp.Result.{ok}
use nexus_mcp.Catalog.{
  ToolVersion, ToolVersionStatus, new_version, submit_for_review, publish, retire, is_published,
}
use nexus_mcp.Catalog.Store.{publishes, published_version, save_version, id_of_version}

new_version_self : (v u : ToolVersion) → new_version v ≡ ok u → v ≡ u
unfolding new_version
new_version_self v u h = ground arith

pub submit_for_review-ok :
    (v u : ToolVersion) (at : ℕ)
    → submit_for_review v at ≡ ok u
    → record v { status = ToolVersionStatus.review; reviewed_at = some at } ≡ u
unfolding submit_for_review
submit_for_review-ok v u at h = new_version_self _ u (ground arith)

pub publish-ok :
    (v u : ToolVersion) (at : ℕ)
    → publish v at ≡ ok u
    → record v { status = ToolVersionStatus.published; published_at = some at } ≡ u
unfolding publish
publish-ok v u at h = new_version_self _ u (ground arith)

pub retire-ok :
    (v u : ToolVersion) (at : ℕ)
    → retire v at ≡ ok u
    → record v { status = ToolVersionStatus.retired; retired_at = some at } ≡ u
unfolding retire
retire-ok v u at h = new_version_self _ u (ground arith)

pub save_version-ok :
    (tenant_id : String) (v : ToolVersion) (d e : Dict ToolVersion)
    → save_version tenant_id v d ≡ ok e
    → put v.id v d ≡ e
unfolding save_version
save_version-ok tenant_id v d e h = ground arith

-- Two published versions of one tool of one tenant stand under one key.
abbrev pub Single : Dict ToolVersion → Type 0
Single d =
    (j k : String) (v u : ToolVersion)
    → get j d ≡ some v
    → get k d ≡ some u
    → is_published v.status ≡ true
    → is_published u.status ≡ true
    → v.tenant_id ≡ u.tenant_id
    → v.tool_id ≡ u.tool_id
    → j ≡ k

-- No version of the tool is published.
abbrev pub Unpublished : String → String → Dict ToolVersion → Type 0
Unpublished tenant_id tool_id d =
    (k : String) (v : ToolVersion) → get k d ≡ some v → publishes tenant_id tool_id v ≡ false

pub put-Single_hidden :
    (k : String) (v : ToolVersion) (d : Dict ToolVersion)
    → is_published v.status ≡ false
    → Single d
    → Single (put k v d)
put-Single_hidden k v d n h i j w u e f p q t o =
    ground (arith, get-put k i v d, get-put k j v d, h i j w u)

pub put-Single_first :
    (k : String) (v : ToolVersion) (d : Dict ToolVersion)
    → Unpublished v.tenant_id v.tool_id d
    → Single d
    → Single (put k v d)
put-Single_first k v d n h i j w u e f p q t o =
    ground (arith, get-put k i v d, get-put k j v d, h i j w u, n i w, n j u)

find_holds :
    (p : ToolVersion → Bool) (v : ToolVersion) (vs : List ToolVersion)
    → find p vs ≡ some v
    → p v ≡ true
unfolding find
find_holds p v [] h = ground arith
find_holds p v (u ∷ vs) h = ground (arith, find_holds p v vs)

pub published_version-stored :
    (tenant_id tool_id : String) (v : ToolVersion) (d : Dict ToolVersion)
    → Keyed id_of_version d
    → published_version tenant_id tool_id d ≡ some v
    → (get v.id d ≡ some v) × (publishes tenant_id tool_id v ≡ true)
unfolding published_version
published_version-stored tenant_id tool_id v d k h =
    (find-get id_of_version _ v d k h, find_holds (publishes tenant_id tool_id) v (values d) h)

pub published_version-none :
    (tenant_id tool_id : String) (d : Dict ToolVersion)
    → published_version tenant_id tool_id d ≡ none
    → Unpublished tenant_id tool_id d
unfolding published_version
published_version-none tenant_id tool_id d h k v e = get-find-none _ d k v h e

-- Once the published version is replaced by one that is not, none is left.
pub put-Unpublished :
    (tenant_id tool_id : String) (v u : ToolVersion) (d : Dict ToolVersion)
    → Single d
    → get v.id d ≡ some v
    → publishes tenant_id tool_id v ≡ true
    → is_published u.status ≡ false
    → Unpublished tenant_id tool_id (put v.id u d)
put-Unpublished tenant_id tool_id v u d h e p n k w f =
    ground (arith, get-put v.id k u d, h v.id k v w)
