-- ===== src/Tests/Toolsets.antt =====
-- The tool sets of src/nexusmcp/modules/toolsets at concrete inputs: the data.
use nexus_mcp.Base.{
  ℕ, String, none, some, List, [], ◌∷◌, ◌≡◌, refl, is_blank, String_discrete, ◌⊎◌, arith, ◌≢◌,
}
use nexus_mcp.Dict.{get, put, values, find, select}
use nexus_mcp.Context.{ActorContext}
use nexus_mcp.Result.{ok, err}
use nexus_mcp.Action.{◌>>=◌, try_else}
use nexus_mcp.Store.{Ports}
use nexus_mcp.Toolsets.{
  Toolset, ToolsetMember, ToolsetKind, ToolsetStatus, ToolsetDiscoveryMode, Digests, ids_of_members,
}
use nexus_mcp.Toolsets.UseCases.{
  CreateToolsetCommand, ReplaceToolsetGrantsCommand, create_toolset, insert_toolset, get_toolset,
}
use nexus_mcp.Toolsets.Reachable.{
  ToolsetOp, run, step, initial, slug_single, all_published_single, stored-Later, stored-IsSound,
}
use nexus_mcp.Toolsets.Store.{
  now, new_id, with_unit_of_work, lookup_by_slug, commit, lookup_by_id, outside,
}
use nexus_mcp.Toolsets.Changes.{
  create_explicit, replace_members, replace_grants, create_all_published, same_ids,
}
use nexus_mcp.Toolsets.Validation.{calculate_membership_digest, new_toolset}
use nexus_mcp.Toolsets.Ids.{normalized_ids, is_slug, is_digest}
use nexus_mcp.Toolsets.Repository.{add}
use nexus_mcp.Toolsets.Writes.{Later}
use nexus_mcp.Toolsets.Revisions.{change, IsNext, Change, change-IsNext, change_stale}
use nexus_mcp.Toolsets.Replaced.{Replaced, replace_members-Replaced}
use nexus_mcp.Toolsets.Ensure.{ensure_all_published, establish, first_unit, grant_first}
use nexus_mcp.Base.Order.{sorted_set, contains, sort_by, add_element, text_lt}
use nexus_mcp.Errors.{toolset_domain, ToolsetDomainError}
use nexus_mcp.Toolsets.Requests.{replace_members_order}
use nexus_mcp.Toolsets.Members.{grants_for, grants_by_id, members_for, members_by_id}

abbrev pub casefold : List ℕ → List ℕ
casefold cs = cs

abbrev pub ports : Ports
ports = record { times = λ n. n; ids = λ n. "set" }

abbrev pub hex : String
hex = "00000000000000000000000000000000000000000000000000000000000000aa"

abbrev pub digests : Digests
digests = record { of_explicit = λ ids. hex; of_all_published = hex }

abbrev pub admin : ActorContext
admin = record {
  request_id = "r1";
  trace_id = "c1";
  tenant_id = "acme";
  principal_id = "ann";
  authn_method = "token";
  principal_type = "agent_service";
}

abbrev pub creation : CreateToolsetCommand
creation = record {
  context = admin;
  slug = "crm-tools";
  name = "CRM";
  description = none;
  discovery_mode = ToolsetDiscoveryMode.direct;
}

-- The tool set as it is created.
abbrev pub drafted : Toolset
drafted = record {
  id = "set";
  tenant_id = "acme";
  slug = "crm-tools";
  name = "CRM";
  description = none;
  kind = ToolsetKind.explicit;
  discovery_mode = ToolsetDiscoveryMode.direct;
  status = ToolsetStatus.draft;
  revision = 1;
  membership_digest = hex;
  created_by = "ann";
  created_at = 0;
  updated_at = 0;
  members = [];
  grants = [];
}

pub drafted-stored :
    get "set" (run casefold ports digests (ToolsetOp.creating creation ∷ []) initial).toolsets
    ≡ some drafted
unfolding run step get create_toolset ◌>>=◌ now new_id try_else create_explicit
    calculate_membership_digest normalized_ids new_toolset is_blank is_slug is_digest
    String_discrete insert_toolset with_unit_of_work values select lookup_by_slug find add commit
    get_toolset put lookup_by_id
drafted-stored = refl

slug_single_example : ◌≡◌ {A = String} "set" "set"
slug_single_example =
    slug_single casefold ports digests (ToolsetOp.creating creation ∷ []) "set" "set" drafted
      drafted drafted-stored drafted-stored refl refl

stored-IsSound_example :
    ◌≡◌ {A = String} "set" "set"
    × (ToolsetKind.explicit ≡ ToolsetKind.explicit
        → hex ≡ digests.of_explicit (sorted_set (ids_of_members [])))
    × (ToolsetKind.explicit ≡ ToolsetKind.explicit
        → ToolsetStatus.draft ≡ ToolsetStatus.active
        → drafted.members ≢ [])
stored-IsSound_example =
    stored-IsSound casefold ports digests (ToolsetOp.creating creation ∷ []) "set" drafted
      drafted-stored

abbrev grants_wanted : ReplaceToolsetGrantsCommand
grants_wanted = record {
  context = admin;
  toolset_id = "set";
  expected_revision = 1;
  principal_ids = "bot" ∷ [];
}

stored-Later_example :
    (u : Toolset) × (get "set"
        (run casefold ports digests
          (ToolsetOp.replacing_grants grants_wanted ∷ [])
          (run casefold ports digests (ToolsetOp.creating creation ∷ []) initial)).toolsets
      ≡ some u)
    × Later drafted u
stored-Later_example =
    stored-Later casefold ports digests (ToolsetOp.creating creation ∷ [])
      (ToolsetOp.replacing_grants grants_wanted ∷ []) "set" drafted drafted-stored

-- The system's tool set as it is established.
abbrev system : Toolset
system = record {
  id = "set";
  tenant_id = "acme";
  slug = "all-published";
  name = "All Published Tools";
  description = some "System-managed view of all current published tools.";
  kind = ToolsetKind.all_published;
  discovery_mode = ToolsetDiscoveryMode.search_first;
  status = ToolsetStatus.active;
  revision = 1;
  membership_digest = hex;
  created_by = "system";
  created_at = 0;
  updated_at = 0;
  members = [];
  grants = [];
}

system-stored :
    get "set" (run casefold ports digests (ToolsetOp.ensuring "acme" [] ∷ []) initial).toolsets
    ≡ some system
unfolding run step get ensure_all_published establish ◌>>=◌ now new_id try_else create_all_published
    calculate_membership_digest normalized_ids new_toolset is_blank is_slug is_digest
    String_discrete with_unit_of_work values select lookup_by_slug find add commit put first_unit
    outside sort_by grant_first
system-stored = refl

all_published_single_example : ◌≡◌ {A = String} "set" "set"
all_published_single_example =
    all_published_single casefold ports digests (ToolsetOp.ensuring "acme" [] ∷ []) "set" "set"
      system system system-stored system-stored refl refl refl

-- The draft with a grant.
abbrev pub granted : Toolset
granted = record drafted {
  revision = 2;
  updated_at = 5;
  grants =
      record {
        tenant_id = "acme";
        toolset_id = "set";
        principal_id = "bot";
        granted_by = "ann";
        granted_at = 5;
      }
      ∷ [];
}

granting : change digests (Change.grants ("bot" ∷ []) "ann") drafted 1 5 ≡ ok granted
unfolding replace_grants normalized_ids is_blank same_ids sort_by add_element grants_for get
    grants_by_id new_toolset is_slug is_digest String_discrete
granting = refl

change-IsNext_example : (granted ≡ drafted) ⊎ IsNext digests drafted 5 granted
change-IsNext_example =
    change-IsNext digests (Change.grants ("bot" ∷ []) "ann") drafted granted 1 5 granting

change_stale_example :
    change digests (Change.grants ("bot" ∷ []) "ann") drafted 2 5
    ≡ err (toolset_domain (ToolsetDomainError.stale_revision "toolset revision conflict"))
change_stale_example =
    change_stale digests (Change.grants ("bot" ∷ []) "ann") drafted 2 5 (omega arith)

abbrev wanted : List String
wanted = "crm.b" ∷ "crm.a" ∷ "crm.b" ∷ []

abbrev pub member : String → ToolsetMember
member tool_id = record {
  tenant_id = "acme";
  toolset_id = "set";
  tool_id = tool_id;
  added_by = "ann";
  added_at = 5;
}

-- The draft with two members.
abbrev pub filled : Toolset
filled = record drafted {
  revision = 2;
  updated_at = 5;
  members = member "crm.a" ∷ member "crm.b" ∷ [];
}

filling : replace_members digests drafted 1 wanted "ann" 5 ≡ ok filled
unfolding replace_members normalized_ids is_blank same_ids sort_by add_element String_discrete
    text_lt members_for get members_by_id calculate_membership_digest new_toolset is_slug is_digest
filling = refl

replace_members-Replaced_example : Replaced digests drafted wanted "ann" 5 filled
replace_members-Replaced_example =
    replace_members-Replaced digests drafted wanted "ann" 5 1 filled filling

same_wanted : (k : String) → contains k wanted ≡ contains k ("crm.a" ∷ "crm.b" ∷ [])
unfolding contains
same_wanted k = ground arith

replace_members_order_example :
    replace_members digests drafted 1 wanted "ann" 5
    ≡ replace_members digests drafted 1 ("crm.a" ∷ "crm.b" ∷ []) "ann" 5
replace_members_order_example =
    replace_members_order wanted ("crm.a" ∷ "crm.b" ∷ []) same_wanted digests drafted 1 "ann" 5
