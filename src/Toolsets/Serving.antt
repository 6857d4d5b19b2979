-- ===== src/Toolsets/Serving.antt =====
-- The use cases of src/nexusmcp/modules/toolsets/use_cases.py keep the invariant of the stored
-- tool sets and only move them to later revisions.
use nexus_mcp.Base.{ℕ, String, Option, none, ◌≡◌, sym, subst, arith, inl, inr, []}
use nexus_mcp.Dict.{Dict}
use nexus_mcp.Result.{ok, Result-cases}
use nexus_mcp.Action.{Action, pure, lift, ◌>>=◌}
use nexus_mcp.Action.Rules.{Keeps, Keeps-bind, Keeps-pure, Keeps-lift, Keeps-if, Keeps-raise_if}
use nexus_mcp.Action.Given.{Keeps-bind-Gives, Gives-try_lift}
use nexus_mcp.Context.{ActorContext}
use nexus_mcp.Store.{Ports}
use nexus_mcp.Toolsets.{Toolset, ToolsetDiscoveryMode, Digests, is_active, ToolsetKind}
use nexus_mcp.Toolsets.Validation.{new_toolset, calculate_membership_digest}
use nexus_mcp.Toolsets.Changes.{create_explicit, create_all_published}
use nexus_mcp.Toolsets.Revisions.{Change, change, change-IsNext, new_toolset_self}
use nexus_mcp.Toolsets.Store.{ToolsetSession, now, new_id, with_unit_of_work}
use nexus_mcp.Toolsets.Profiles.{as_invalid_arguments, ToolsetProfile, require_available}
use nexus_mcp.Toolsets.UseCases.{
  CreateToolsetCommand, UpdateToolsetCommand, ReplaceToolsetMembersCommand,
  ReplaceToolsetGrantsCommand, ChangeToolsetStatusCommand, get_toolset, create_toolset,
  insert_toolset, update_toolset, replace_found_members, replace_toolset_members,
  replace_toolset_grants, activate_toolset, disable_toolset, get_locked, conclude, change_and_save,
}
use nexus_mcp.Toolsets.Invariant.{IsValid}
use nexus_mcp.Toolsets.Keeping.{
  Sound, Safe, Keeps-with_unit_of_work, Keeps-read_catalog, Keeps-now, Keeps-new_id, Keeps-add,
  Keeps-conclude, Keeps-change_and_save, get_locked-Gives, session_rules,
}
use nexus_mcp.Base.Order.{sorted_set}

module _ (digests : Digests) where
  new_toolset-IsValid : (t u : Toolset) → new_toolset digests t ≡ ok u → IsValid digests u
  new_toolset-IsValid t u h =
      subst (λ w. new_toolset digests w ≡ ok u) (sym (new_toolset_self digests t u h)) h

  created-IsValid :
      (id tenant_id slug name : String) (description : Option String) (creator : String) (at : ℕ)
      (mode : ToolsetDiscoveryMode) (u : Toolset)
      → create_explicit digests id tenant_id slug name description creator at mode ≡ ok u
      → IsValid digests u
  unfolding create_explicit
  created-IsValid id tenant_id slug name description creator at mode u h =
      elim (Result-cases (calculate_membership_digest digests ToolsetKind.explicit [])) [
        | inl (digest, q) ↦ new_toolset-IsValid _ u (rw q at h)
        | inr (e, q) ↦ ground arith
      ]

  pub system-IsValid :
      (id tenant_id creator : String) (at : ℕ) (u : Toolset)
      → create_all_published digests id tenant_id creator at ≡ ok u
      → IsValid digests u
  unfolding create_all_published
  system-IsValid id tenant_id creator at u h = new_toolset-IsValid _ u h

  pub changed-IsValid :
      (c : Change) (t u : Toolset) (expected at : ℕ)
      → IsValid digests t
      → change digests c t expected at ≡ ok u
      → IsValid digests u
  changed-IsValid c t u expected at v h = elim (change-IsNext digests c t u expected at h) [
    | inl e ↦ subst (IsValid digests) (sym e) v
    | inr n ↦ n.valid
  ]

module _ (digests : Digests) (start : Dict Toolset) (ports : Ports) where
  Keeps-insert_toolset :
      (t : Toolset)
      → IsValid digests t
      → Keeps (Sound digests start) (insert_toolset ports digests t)
  unfolding insert_toolset
  Keeps-insert_toolset t v =
      Keeps-with_unit_of_work digests start _ (search (session_rules, Keeps-add) depth 8)

  pub get_toolset-Sound :
      (context : ActorContext) (id : String) → Keeps (Sound digests start) (get_toolset context id)
  unfolding get_toolset
  get_toolset-Sound context id =
      Keeps-with_unit_of_work digests start _ (search session_rules depth 8)

  pub create_toolset-Sound :
      (c : CreateToolsetCommand) → Keeps (Sound digests start) (create_toolset ports digests c)
  unfolding create_toolset
  create_toolset-Sound c = Keeps-bind (now ports) _ (Keeps-now digests start ports) λ at.
      Keeps-bind (new_id ports) _ (Keeps-new_id digests start ports) λ id.
        Keeps-bind-Gives (IsValid digests) _ _
          (Gives-try_lift _ as_invalid_arguments (
            created-IsValid digests id c.context.tenant_id c.slug c.name c.description
              c.context.principal_id at c.discovery_mode))
          λ t v.
            Keeps-bind (insert_toolset ports digests t) _ (Keeps-insert_toolset t v)
              λ _. get_toolset-Sound c.context t.id

  -- A use case that reads a tool set for a change.
  locked-Sound :
      (context : ActorContext) (id : String) (rest : Toolset → Action ToolsetSession ToolsetProfile)
      → ((t : Toolset) → IsValid digests t → Keeps (Safe digests start) (rest t))
      → Keeps (Sound digests start) (with_unit_of_work (get_locked context id >>= rest))
  locked-Sound context id rest k = Keeps-with_unit_of_work digests start _ (
      Keeps-bind-Gives (IsValid digests) (get_locked context id) rest
        (get_locked-Gives digests start context id) k)

  -- A change of a valid tool set, its save and the end of the unit of work.
  change_and_conclude-Safe :
      (tenant_id : String) (c : Change) (t : Toolset) (expected : ℕ)
      → IsValid digests t
      → Keeps
          (Safe digests start)
          (change_and_save ports digests tenant_id (change digests c t expected) >>= conclude)
  change_and_conclude-Safe tenant_id c t expected v =
      Keeps-bind _ conclude
        (Keeps-change_and_save digests start ports tenant_id (change digests c t expected)
          (λ at u. changed-IsValid digests c t u expected at v))
        (Keeps-conclude digests start)

  pub update_toolset-Sound :
      (c : UpdateToolsetCommand) → Keeps (Sound digests start) (update_toolset ports digests c)
  unfolding update_toolset
  update_toolset-Sound c = locked-Sound c.context c.toolset_id _ λ t.
      change_and_conclude-Safe c.context.tenant_id
        (Change.profile c.name c.description c.discovery_mode) t c.expected_revision

  pub replace_toolset_grants-Sound :
      (c : ReplaceToolsetGrantsCommand)
      → Keeps (Sound digests start) (replace_toolset_grants ports digests c)
  unfolding replace_toolset_grants
  replace_toolset_grants-Sound c = locked-Sound c.context c.toolset_id _ λ t.
      change_and_conclude-Safe c.context.tenant_id
        (Change.grants c.principal_ids c.context.principal_id) t c.expected_revision

  pub disable_toolset-Sound :
      (c : ChangeToolsetStatusCommand)
      → Keeps (Sound digests start) (disable_toolset ports digests c)
  unfolding disable_toolset
  disable_toolset-Sound c =
      locked-Sound c.context c.toolset_id _
        λ t. change_and_conclude-Safe c.context.tenant_id Change.disabling t c.expected_revision

  pub replace_toolset_members-Sound :
      (c : ReplaceToolsetMembersCommand)
      → Keeps (Sound digests start) (replace_toolset_members ports digests c)
  unfolding replace_toolset_members replace_found_members
  replace_toolset_members-Sound c =
      locked-Sound c.context c.toolset_id (replace_found_members ports digests c) λ t v.
        let ending =
          change_and_conclude-Safe c.context.tenant_id
            (Change.members (sorted_set c.tool_ids) c.context.principal_id) t c.expected_revision
            v in
        Keeps-bind _ _ (Keeps-lift _) λ _.
          Keeps-bind _ _ (Keeps-read_catalog digests start _) λ snapshots.
            Keeps-bind _ _ (Keeps-raise_if _ _) λ _.
              Keeps-bind _ _
                (Keeps-if (is_active t.status) (lift (require_available snapshots none)) (pure tt)
                  (Keeps-lift _) (Keeps-pure tt))
                λ _. ending

  pub activate_toolset-Sound :
      (c : ChangeToolsetStatusCommand)
      → Keeps (Sound digests start) (activate_toolset ports digests c)
  unfolding activate_toolset
  activate_toolset-Sound c = locked-Sound c.context c.toolset_id _ λ t v.
      let ending =
        change_and_conclude-Safe c.context.tenant_id Change.activation t c.expected_revision v in
      Keeps-bind _ _ (Keeps-lift _) λ _.
        Keeps-bind _ _ (Keeps-read_catalog digests start _)
          λ snapshots. Keeps-bind _ _ (Keeps-lift _) λ _. ending
