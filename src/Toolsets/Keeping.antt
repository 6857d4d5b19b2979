-- ===== src/Toolsets/Keeping.antt =====
-- What the parts of a unit of work of src/nexusmcp/modules/toolsets/use_cases.py keep.
use nexus_mcp.Base.{ℕ, String, some, List, ◌≡◌, arith, inl, inr, Option-cases}
use nexus_mcp.Dict.{Dict, get}
use nexus_mcp.Errors.{Exc}
use nexus_mcp.Result.{Result, ok, Result-cases}
use nexus_mcp.Action.{Action, ◌>>=◌}
use nexus_mcp.Action.Rules.{
  Keeps, Keeps-raise_if, Keeps-bind, Keeps-bind-lift, Keeps-try_else, Keeps-raise, Keeps-pure,
  keeps_rules,
}
use nexus_mcp.Action.Given.{Gives}
use nexus_mcp.Context.{ActorContext}
use nexus_mcp.Store.{Ports}
use nexus_mcp.Toolsets.{Toolset, Digests}
use nexus_mcp.Toolsets.Catalog.{ToolsetCatalogSnapshot}
use nexus_mcp.Toolsets.Store.{
  ToolsetWorld, ToolsetSession, now, new_id, outside, with_unit_of_work, commit, rollback,
  lookup_by_id,
}
use nexus_mcp.Toolsets.Repository.{add, save, added, saved}
use nexus_mcp.Toolsets.Profiles.{map_mutation_error}
use nexus_mcp.Toolsets.UseCases.{
  translating, read, read_catalog, get_locked, conclude, change_and_save,
}
use nexus_mcp.Toolsets.Invariant.{Inv, IsValid, clone_lem}
use nexus_mcp.Toolsets.Writes.{Grows, Grows-trans, added-keeps, saved-keeps}

found_stored :
    (tenant_id toolset_id : String) (t : Toolset) (d : Dict Toolset)
    → lookup_by_id tenant_id toolset_id d ≡ some t
    → get toolset_id d ≡ some t
unfolding lookup_by_id
found_stored tenant_id toolset_id t d h = ground arith

module _ (digests : Digests) (start : Dict Toolset) where
  -- The invariant holds, and what was stored at the start is stored or was revised since.
  pub record Holds (d : Dict Toolset) : Type 0 where
    pub inv : Inv digests d
    pub grown : Grows start d

  abbrev pub Sound : ToolsetWorld → Type 0
  Sound w = Holds w.toolsets

  pub record Safe (s : ToolsetSession) : Type 0 where
    pub committed : Holds s.world.toolsets
    pub copies : Holds s.working

  pub Keeps-with_unit_of_work :
      {A : Type 0} (body : Action ToolsetSession A)
      → Keeps Safe body
      → Keeps Sound (with_unit_of_work body)
  unfolding with_unit_of_work
  Keeps-with_unit_of_work body k = record {
    kept = λ w h.
        rw (clone_lem digests w.toolsets h.inv)
          (k.kept (record { world = w; working = w.toolsets })
            (record { committed = h; copies = h })).committed;
  }

  pub Keeps-read : {A : Type 0} (f : Dict Toolset → A) → Keeps Safe (read f)
  unfolding read
  Keeps-read f = record { kept = λ s h. h }

  pub Keeps-read_catalog :
      {A : Type 0} (f : List ToolsetCatalogSnapshot → A) → Keeps Safe (read_catalog f)
  unfolding read_catalog
  Keeps-read_catalog f = record { kept = λ s h. h }

  pub Keeps-now : (ports : Ports) → Keeps Sound (now ports)
  unfolding now
  Keeps-now ports = record { kept = λ w h. h }

  pub Keeps-new_id : (ports : Ports) → Keeps Sound (new_id ports)
  unfolding new_id
  Keeps-new_id ports = record { kept = λ w h. h }

  pub Keeps-outside :
      {A : Type 0} (m : Action ToolsetWorld A) → Keeps Sound m → Keeps Safe (outside m)
  unfolding outside
  Keeps-outside m k = record {
    kept = λ s h. record { committed = k.kept s.world h.committed; copies = h.copies };
  }

  pub Keeps-commit : Keeps Safe commit
  unfolding commit
  Keeps-commit = record { kept = λ s h. record { committed = h.copies; copies = h.copies } }

  pub Keeps-rollback : Keeps Safe rollback
  unfolding rollback
  Keeps-rollback = record {
    kept = λ s h.
        rw (clone_lem digests s.world.toolsets h.committed.inv)
          (record { committed = h.committed; copies = h.committed });
  }

  grow : (d e : Dict Toolset) → Holds d → Inv digests e × Grows d e → Holds e
  grow d e h (i, g) = record { inv = i; grown = Grows-trans start d e h.grown g }

  pub Keeps-add :
      (tenant_id : String) (t : Toolset) → IsValid digests t → Keeps Safe (add tenant_id t)
  unfolding add
  Keeps-add tenant_id t valid = record {
    kept = λ s h. elim (Result-cases (added tenant_id t s.working)) [
      | inl (e, q) ↦ rw q (record {
        committed = h.committed;
        copies =
            grow s.working e h.copies
              (added-keeps digests tenant_id t s.working e h.copies.inv valid q);
      })
      | inr (x, q) ↦ rw q h
    ];
  }

  pub Keeps-save :
      (tenant_id : String) (t : Toolset) → IsValid digests t → Keeps Safe (save tenant_id t)
  unfolding save
  Keeps-save tenant_id t valid = record {
    kept = λ s h. elim (Result-cases (saved tenant_id t s.working)) [
      | inl (e, q) ↦ rw q (record {
        committed = h.committed;
        copies =
            grow s.working e h.copies
              (saved-keeps digests tenant_id t s.working e h.copies.inv valid q);
      })
      | inr (x, q) ↦ rw q h
    ];
  }

  pub Keeps-translating :
      {A : Type 0} (translate : Exc → Exc) (m : Action ToolsetSession A)
      → Keeps Safe m
      → Keeps Safe (translating translate m)
  unfolding translating
  Keeps-translating translate m k =
      Keeps-try_else m _ _ k (λ e. Keeps-raise (translate e)) (λ a. Keeps-pure a)

  pub Keeps-conclude : (t : Toolset) → Keeps Safe (conclude t)
  unfolding conclude
  Keeps-conclude t = search (keeps_rules, Keeps-read_catalog, Keeps-commit)

  pub Keeps-change_and_save :
      (ports : Ports) (tenant_id : String) (change : ℕ → Result Toolset)
      → ((at : ℕ) (u : Toolset) → change at ≡ ok u → IsValid digests u)
      → Keeps Safe (change_and_save ports digests tenant_id change)
  unfolding change_and_save
  Keeps-change_and_save ports tenant_id change valid = Keeps-translating map_mutation_error _ (
      Keeps-bind (outside (now ports)) _ (Keeps-outside (now ports) (Keeps-now ports)) λ at.
        Keeps-bind-lift (change at) _ λ u q.
          Keeps-bind (save tenant_id u) _ (Keeps-save tenant_id u (valid at u q)) λ _. Keeps-pure u)

  -- What is read for a change is valid.
  pub get_locked-Gives :
      (context : ActorContext) (toolset_id : String)
      → Gives Safe (IsValid digests) (get_locked context toolset_id)
  unfolding get_locked ◌>>=◌ read
  get_locked-Gives context toolset_id = record {
    given = λ s h. elim (Option-cases (lookup_by_id context.tenant_id toolset_id s.working)) [
      | inl n ↦ rw n h
      | inr (t, e) ↦ rw e (
        h.copies.inv.valid toolset_id t (found_stored context.tenant_id toolset_id t s.working e),
        h,
      )
    ];
  }

pub ruleset session_rules = (
  keeps_rules, Keeps-raise_if, Keeps-read, Keeps-read_catalog, Keeps-now, Keeps-new_id,
  Keeps-outside, Keeps-commit, Keeps-rollback, Keeps-conclude, Keeps-translating,
)
