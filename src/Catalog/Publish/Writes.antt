-- ===== src/Catalog/Publish/Writes.antt =====
-- What the transitions and the writes of a publication give:
-- src/nexusmcp/modules/connectors/domain.py, src/nexusmcp/modules/catalog/domain.py and the
-- in-memory repositories.
use nexus_mcp.Base.{ℕ, String, some, ◌≡◌, refl, arith}
use nexus_mcp.Dict.{Dict, put}
use nexus_mcp.Result.{ok}
use nexus_mcp.Connectors.{ToolBinding, ToolBindingStatus, new_binding, calculate_binding_digest}
use nexus_mcp.Connectors.Store.{save_binding}
use nexus_mcp.Catalog.{
  Tool, ToolStatus, ToolVersion, ToolVersionStatus, new_tool, activate, retire, publish, is_review,
  is_published,
}
use nexus_mcp.Catalog.Store.{save_tool}

new_binding_self : (b c : ToolBinding) → new_binding b ≡ ok c → b ≡ c
unfolding new_binding
new_binding_self b c h = ground arith

pub publish_binding-ok :
    (b c : ToolBinding) (at : ℕ)
    → nexus_mcp.Connectors.publish b at ≡ ok c
    → record b { status = ToolBindingStatus.published; published_at = some at } ≡ c
unfolding nexus_mcp.Connectors.publish
publish_binding-ok b c at h = new_binding_self _ c (ground arith)

pub disable_binding-ok :
    (b c : ToolBinding)
    → nexus_mcp.Connectors.disable b ≡ ok c
    → record b { status = ToolBindingStatus.disabled } ≡ c
unfolding nexus_mcp.Connectors.disable
disable_binding-ok b c h = new_binding_self _ c (ground arith)

pub save_binding-ok :
    (tenant_id : String) (b : ToolBinding) (d e : Dict ToolBinding)
    → save_binding tenant_id b d ≡ ok e
    → put b.id b d ≡ e
unfolding save_binding
save_binding-ok tenant_id b d e h = ground arith

new_tool_self : (t u : Tool) → new_tool t ≡ ok u → t ≡ u
unfolding new_tool
new_tool_self t u h = ground arith

activated-ok :
    (t u : Tool) (s : ToolStatus)
    → t.status ≡ s
    → nexus_mcp.Catalog.activated t s ≡ ok u
    → record t { status = ToolStatus.active } ≡ u
activated-ok t u ToolStatus.active e h = ground arith
activated-ok t u ToolStatus.disabled e h = new_tool_self _ u h

pub activate-ok : (t u : Tool) → activate t ≡ ok u → record t { status = ToolStatus.active } ≡ u
unfolding activate
activate-ok t u h = activated-ok t u t.status refl h

pub save_tool-ok :
    (tenant_id : String) (t : Tool) (d e : Dict Tool)
    → save_tool tenant_id t d ≡ ok e
    → put t.id t d ≡ e
unfolding save_tool
save_tool-ok tenant_id t d e h = ground arith

abbrev pub retired_version : ToolVersion → ℕ → ToolVersion
retired_version v at = record v { status = ToolVersionStatus.retired; retired_at = some at }

abbrev pub published_version_of : ToolVersion → ℕ → ToolVersion
published_version_of v at = record v {
  status = ToolVersionStatus.published;
  published_at = some at;
}

abbrev pub published_binding : ToolBinding → ℕ → ToolBinding
published_binding b at = record b { status = ToolBindingStatus.published; published_at = some at }

abbrev pub disabled_binding : ToolBinding → ToolBinding
disabled_binding b = record b { status = ToolBindingStatus.disabled }

abbrev pub active_tool : Tool → Tool
active_tool t = record t { status = ToolStatus.active }
