-- ===== src/Toolsets/Health.antt =====
-- The health in a profile and `derive_toolset_health`: src/nexusmcp/modules/toolsets/use_cases.py
-- and src/nexusmcp/modules/toolsets/domain.py.
use nexus_mcp.Base.{
  List, [], ◌∷◌, ◌≡◌, ◌⊎◌, ◌∙◌, inl, inr, true, refl, ap, arith, length, map, if◌then◌else◌,
}
use nexus_mcp.Toolsets.{Toolset, ToolsetMemberAvailability, is_all_published}
use nexus_mcp.Toolsets.Catalog.{ToolsetCatalogSnapshot}
use nexus_mcp.Toolsets.Profiles.{
  ToolsetMemberProfile, available_members, count_available, health_of, derive_toolset_health,
  profile, profile_snapshots, member_profile,
}

-- The availabilities of the members.
abbrev pub availabilities : List ToolsetMemberProfile → List ToolsetMemberAvailability
availabilities [] = []
availabilities (p ∷ ps) = p.availability ∷ availabilities ps

count_available-availabilities :
    (ps : List ToolsetMemberProfile) → count_available (availabilities ps) ≡ available_members ps
unfolding count_available available_members
count_available-availabilities [] = refl
count_available-availabilities (p ∷ ps) = ground (arith, count_available-availabilities ps)

length-availabilities : (ps : List ToolsetMemberProfile) → length (availabilities ps) ≡ length ps
length-availabilities [] = refl
length-availabilities (p ∷ ps) = omega (arith, length-availabilities ps)

health_of-derive_toolset_health :
    (ps : List ToolsetMemberProfile)
    → health_of (available_members ps) (length ps) ≡ derive_toolset_health (availabilities ps)
unfolding health_of derive_toolset_health
health_of-derive_toolset_health ps =
    ground (arith, count_available-availabilities ps, length-availabilities ps)

-- The count that a profile expects is that of its members.
expected-length :
    (t : Toolset) (ps : List ToolsetMemberProfile)
    → (is_all_published t.kind ≡ true) ⊎ (length ps ≡ length t.members)
    → (if is_all_published t.kind then length ps else length t.members) ≡ length ps
expected-length t ps (inl h) = rw h refl
expected-length t ps (inr h) = ground arith

-- The health that a profile shows is the one that `derive_toolset_health` gives of the
-- availabilities of the members that it shows, where the tool set has all published tools or the
-- profile shows as many members as the tool set has.
pub profile-derive_toolset_health :
    (snapshots : List ToolsetCatalogSnapshot) (t : Toolset)
    → (is_all_published t.kind ≡ true) ⊎ (length (profile snapshots t).members ≡ length t.members)
    → (profile snapshots t).health
      ≡ derive_toolset_health (availabilities (profile snapshots t).members)
unfolding profile
profile-derive_toolset_health snapshots t h =
    let ps = map member_profile (profile_snapshots snapshots t) in
    ap (health_of (available_members ps)) (expected-length t ps h)
    ∙ health_of-derive_toolset_health ps
