-- ===== src/Toolsets/Access.antt =====
-- Which tools an endpoint gives access to: src/nexusmcp/modules/toolsets/runtime.py.
use nexus_mcp.Base.{
  String, Bool, true, Option, none, some, List, [], ◌∷◌, ◌≡◌, ◌⊎◌, sym, ap, subst, arith, inl, inr,
  Bool-cases, ◌∙◌,
}
use nexus_mcp.Base.Order.{contains}
use nexus_mcp.Base.Elements.{Element, Element-sort_by}
use nexus_mcp.Dict.{Dict, get, values, find, select}
use nexus_mcp.Result.{ok, Result-cases}
use nexus_mcp.Context.{ActorContext}
use nexus_mcp.Kinds.{McpScopeType}
use nexus_mcp.Toolsets.{Toolset, is_active, ids_of_grants}
use nexus_mcp.Toolsets.Store.{lookup_by_slug, list_by_tenant, list_granted_active}
use nexus_mcp.Toolsets.Scopes.{granted_toolsets, require_scoped_access}
use nexus_mcp.Dict.Keyed.{Keyed, find-get}
use nexus_mcp.Toolsets.Invariant.{id_of}

-- The tool set is stored for the tenant, is active, and the principal has a grant to it.
pub record Granted (context : ActorContext) (d : Dict Toolset) (t : Toolset) : Type 0 where
  pub stored : get t.id d ≡ some t
  pub tenant : t.tenant_id ≡ context.tenant_id
  pub active : is_active t.status ≡ true
  pub granted : contains context.principal_id (ids_of_grants t.grants) ≡ true

pub Element-select :
    {A : Type 0} (p : A → Bool) (x : A) (xs : List A)
    → Element x (select p xs)
    → Element x xs × (p x ≡ true)
unfolding select
Element-select p x [] h = absurd h
Element-select p x (y ∷ xs) h = elim (Bool-cases (p y)) [
  | inl e ↦ elim (let k : (x ≡ y) ⊎ Element x (select p xs) = rw e at h in k) [
    | inl same ↦ (inl same, ap p same ∙ e)
    | inr m ↦ let (n, q) = Element-select p x xs m in (inr n, q)
  ]
  | inr e ↦ let (n, q) = Element-select p x xs (rw e at h) in (inr n, q)
]

Element-values :
    (t : Toolset) (d : Dict Toolset) → Keyed id_of d → Element t (values d) → get t.id d ≡ some t
unfolding get values
Element-values t [] v h = absurd h
Element-values t ((k, u) ∷ d) (e, n, v) h = elim h [
  | inl same ↦ ground arith
  | inr m ↦ ground (arith, Element-values t d v m)
]

listed-Granted :
    (context : ActorContext) (d : Dict Toolset) (t : Toolset)
    → Keyed id_of d
    → Element t (list_granted_active context.tenant_id context.principal_id d)
    → Granted context d t
unfolding list_granted_active list_by_tenant
listed-Granted context d t v h =
    let (sorted, passed) = Element-select _ t _ h in
    let (selected, tenant) = Element-select _ t (values d) (Element-sort_by _ t _ sorted) in
    record {
      stored = Element-values t d v selected;
      tenant = ground arith;
      active = ground arith;
      granted = ground arith;
    }

pub find-passes :
    {A : Type 0} (p : A → Bool) (x : A) (xs : List A) → find p xs ≡ some x → p x ≡ true
unfolding find
find-passes p x [] h = ground arith
find-passes p x (y ∷ xs) h = elim (Bool-cases (p y)) [
  | inl e ↦ let same : y ≡ x = ground arith in ap p (sym same) ∙ e
  | inr e ↦ find-passes p x xs (ground arith)
]

required :
    (principal_id : String) (found : Option Toolset) (t : Toolset)
    → require_scoped_access principal_id found ≡ ok t
    → (found ≡ some t)
      × (is_active t.status ≡ true)
      × (contains principal_id (ids_of_grants t.grants) ≡ true)
unfolding require_scoped_access
required principal_id none t h = ground arith
required principal_id (some u) t h = ground arith

scoped-Granted :
    (context : ActorContext) (slug : String) (d : Dict Toolset) (t : Toolset)
    → Keyed id_of d
    → require_scoped_access context.principal_id (lookup_by_slug context.tenant_id slug d) ≡ ok t
    → Granted context d t
unfolding lookup_by_slug
scoped-Granted context slug d t v h =
    let (found, active, granted) = required context.principal_id _ t h in
    let passed = find-passes _ t (values d) found in
    record {
      stored = find-get id_of _ t d v found;
      tenant = ground arith;
      active = active;
      granted = granted;
    }

-- Every tool set that the endpoint gives access to is granted.
pub granted_toolsets-Granted :
    (context : ActorContext) (type : McpScopeType) (slug : Option String) (d : Dict Toolset)
    (ts : List Toolset) (t : Toolset)
    → Keyed id_of d
    → granted_toolsets context type slug d ≡ ok ts
    → Element t ts
    → Granted context d t
granted_toolsets-Granted context McpScopeType.toolset (some slug) d ts t v h m =
    elim (Result-cases
      (require_scoped_access context.principal_id (lookup_by_slug context.tenant_id slug d))) [
        | inl (u, q) ↦
            let only : ts ≡ u ∷ [] = ground arith in
            elim (let k : (t ≡ u) ⊎ ⊥ = subst (Element t) only m in k) [
              | inl same ↦
                  subst (Granted context d) (sym same) (scoped-Granted context slug d u v q)
              | inr no_other ↦ absurd no_other
            ]
        | inr (e, q) ↦ ground arith
      ]
granted_toolsets-Granted context McpScopeType.toolset none d ts t v h m = ground arith
granted_toolsets-Granted context McpScopeType.root slug d ts t v h m =
    listed-Granted context d t v (subst (Element t) (ground arith) m)
