-- ===== src/Toolsets.antt =====
-- The aggregate of src/nexusmcp/modules/toolsets/domain.py. Times are numbers of microseconds, so
-- they are aware; the digest of a membership is a port, `canonical_json_digest`.
pub mod Ids
pub mod Validation
pub mod Members
pub mod Changes
pub mod Revisions
pub mod Membership
pub mod Replaced
pub mod Requests
pub mod Catalog
pub mod Store
pub mod Repository
pub mod Profiles
pub mod UseCases
pub mod Ensure
pub mod Listing
pub mod Scopes
pub mod Runtime
pub mod Access
pub mod Callable
pub mod Health
pub mod Uniqueness
pub mod Invariant
pub mod Writes
pub mod Keeping
pub mod Serving
pub mod Ensuring
pub mod Valid
pub mod Reachable
use nexus_mcp.Base.{
  ℕ, String, Bool, true, false, not, ◌&&◌, ◌||◌, Option, List, [], ◌∷◌, ◌==◌, map, is_blank, codes,
  length, eqb, leb, ltb, if◌then◌else◌,
}
use nexus_mcp.Base.Order.{contains, add_element, sort_by, text_lt}
use nexus_mcp.Errors.{Exc, value_error}
use nexus_mcp.Result.{Result, ok, err, ◌>>=◌, ◌>>◌, reject_if}

pub data ToolsetKind : Type 0 where
  explicit all_published : ToolsetKind

pub data ToolsetDiscoveryMode : Type 0 where
  direct search_first : ToolsetDiscoveryMode

pub data ToolsetStatus : Type 0 where
  draft active disabled : ToolsetStatus

pub data ToolsetHealth : Type 0 where
  healthy degraded unavailable : ToolsetHealth

pub data ToolsetMemberAvailability : Type 0 where
  available tool_disabled no_published_version : ToolsetMemberAvailability

abbrev pub is_all_published : ToolsetKind → Bool
is_all_published ToolsetKind.all_published = true
is_all_published ToolsetKind.explicit = false

abbrev pub is_active : ToolsetStatus → Bool
is_active ToolsetStatus.active = true
is_active _ = false

abbrev pub is_disabled : ToolsetStatus → Bool
is_disabled ToolsetStatus.disabled = true
is_disabled _ = false

abbrev pub is_available : ToolsetMemberAvailability → Bool
is_available ToolsetMemberAvailability.available = true
is_available _ = false

abbrev pub same_mode : ToolsetDiscoveryMode → ToolsetDiscoveryMode → Bool
same_mode ToolsetDiscoveryMode.direct ToolsetDiscoveryMode.direct = true
same_mode ToolsetDiscoveryMode.search_first ToolsetDiscoveryMode.search_first = true
same_mode _ _ = false

pub record ToolsetMember : Type 0 where
  pub tenant_id : String
  pub toolset_id : String
  pub tool_id : String
  pub added_by : String
  pub added_at : ℕ

pub record ToolsetAccessGrant : Type 0 where
  pub tenant_id : String
  pub toolset_id : String
  pub principal_id : String
  pub granted_by : String
  pub granted_at : ℕ

pub record Toolset : Type 0 where
  pub id : String
  pub tenant_id : String
  pub slug : String
  pub name : String
  pub description : Option String
  pub kind : ToolsetKind
  pub discovery_mode : ToolsetDiscoveryMode
  pub status : ToolsetStatus
  pub revision : ℕ
  pub membership_digest : String
  pub created_by : String
  pub created_at : ℕ
  pub updated_at : ℕ
  pub members : List ToolsetMember
  pub grants : List ToolsetAccessGrant

-- `tool_ids`
abbrev pub ids_of_members : List ToolsetMember → List String
ids_of_members [] = []
ids_of_members (m ∷ ms) = m.tool_id ∷ ids_of_members ms

-- `principal_ids`
abbrev pub ids_of_grants : List ToolsetAccessGrant → List String
ids_of_grants [] = []
ids_of_grants (g ∷ gs) = g.principal_id ∷ ids_of_grants gs

-- `canonical_json_digest` of a kind with the normalized ids, and of `{"kind": "all_published",
-- "rule_version": 1}`.
pub record Digests : Type 0 where
  pub of_explicit : List String → String
  pub of_all_published : String
