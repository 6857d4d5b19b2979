-- ===== src/Toolsets/Invariant.antt =====
-- What the dictionary of src/nexusmcp/modules/toolsets/adapters/in_memory.py satisfies, and that
-- its writes keep it.
use nexus_mcp.Base.{String, Bool, true, false, some, List, [], ◌∷◌, ◌==◌, ◌≡◌, refl, ap}
use nexus_mcp.Dict.{Dict, get, values, select, repeats}
use nexus_mcp.Result.{ok}
use nexus_mcp.Toolsets.{Toolset, Digests, is_all_published}
use nexus_mcp.Toolsets.Validation.{new_toolset}
use nexus_mcp.Toolsets.Store.{same_slug, clone, new_repository, validate_seed_uniqueness}
use nexus_mcp.Dict.Keyed.{Keyed, Keyed-repeats, index-values}

abbrev pub same_tenant : Toolset → Toolset → Bool
same_tenant t u = t.tenant_id == u.tenant_id

abbrev pub published : Toolset → Bool
published t = is_all_published t.kind

abbrev pub always : Toolset → Bool
always t = true

pub select-always : (ts : List Toolset) → select always ts ≡ ts
unfolding select
select-always [] = refl
select-always (t ∷ ts) = ap (◌∷◌ t) (select-always ts)

abbrev pub id_of : Toolset → String
id_of t = t.id

module _ (digests : Digests) where
  -- The tool set passes its own checks.
  abbrev pub IsValid : Toolset → Type 0
  IsValid t = new_toolset digests t ≡ ok t

  -- Tool sets stand once, under their identifiers, and are valid; no two of one tenant have the
  -- same slug, and no two of one tenant are of the kind `all_published`.
  pub record Inv (d : Dict Toolset) : Type 0 where
    pub keyed : Keyed id_of d
    pub slugs : repeats same_slug (values d) ≡ false
    pub systems : repeats same_tenant (select published (values d)) ≡ false
    pub valid : (k : String) (t : Toolset) → get k d ≡ some t → IsValid t

  -- A copy is made, and is the same.
  pub clone_lem : (d : Dict Toolset) → Inv d → clone d ≡ ok d
  unfolding clone new_repository validate_seed_uniqueness
  clone_lem d v =
      let same = index-values id_of d v.keyed in
      let distinct = Keyed-repeats id_of d v.keyed in
      rw (distinct, same, distinct, v.slugs, v.systems)
