-- ===== src/Catalog/Review.antt =====
-- The submission of a draft version for review: src/nexusmcp/modules/catalog/review.py.
use nexus_mcp.Base.{ℕ, ◌+◌, String, not}
use nexus_mcp.Errors.{NexusMcpError}
use nexus_mcp.Result.{Result, ok, err, ◌>>=◌, ◌>>◌}
use nexus_mcp.Action.{Action}
use nexus_mcp.Context.{ActorContext}
use nexus_mcp.Store.{Ports}
use nexus_mcp.Catalog.{ToolVersion, submit_for_review, is_draft}
use nexus_mcp.Catalog.Store.{version_by_id, save_version}
use nexus_mcp.Catalog.Publish.{
  CatalogStores, CatalogWorld, clone_stores, settle_transaction, require, raise_when,
}

pub record SubmitToolVersionForReviewCommand : Type 0 where
  pub context : ActorContext
  pub tool_version_id : String

-- What `execute` reads, and its checks.
unfoldable pub read_draft :
    SubmitToolVersionForReviewCommand → CatalogStores → Result (ToolVersion × CatalogStores)
unfolding version_by_id
read_draft c d = do
  version ←
      require (version_by_id c.context.tenant_id c.tool_version_id d.versions)
        NexusMcpError.tool_version_not_found
  raise_when (not (is_draft version.status)) NexusMcpError.invalid_tool_state
  ok (version, d)

-- What `execute` writes, at the time of the clock.
unfoldable pub write_review :
    String → ToolVersion → ℕ → CatalogStores → Result (Unit {0} × CatalogStores)
write_review tenant_id version at d = do
  submitted ← submit_for_review version at
  versions ← save_version tenant_id submitted d.versions
  ok (tt, record d { versions = versions })

-- The clock is asked only once the version has been found to be a draft.
abbrev pub submit_read :
    Ports → String → Result (ToolVersion × CatalogStores) → Action CatalogWorld (Unit {0})
submit_read ports tenant_id (err e) w = (err e, w)
submit_read ports tenant_id (ok (version, d)) w =
    settle_transaction (write_review tenant_id version (ports.times w.ticks) d)
      (record w { ticks = w.ticks + 1 })

-- `SubmitToolVersionForReview.execute`
unfoldable pub submit_tool_version :
    Ports → SubmitToolVersionForReviewCommand → Action CatalogWorld (Unit {0})
unfolding clone_stores
submit_tool_version ports c w =
    submit_read ports c.context.tenant_id (clone_stores w.stores >>= read_draft c) w
