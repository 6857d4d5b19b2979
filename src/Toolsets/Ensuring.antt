-- ===== src/Toolsets/Ensuring.antt =====
-- `EnsureAllPublishedToolset` of src/nexusmcp/modules/toolsets/use_cases.py keeps the invariant of
-- the stored tool sets and only moves them to later revisions.
use nexus_mcp.Base.{String, Option, none, some, List, ◌≡◌, arith, ◌++◌}
use nexus_mcp.Dict.{Dict}
use nexus_mcp.Errors.{
  Exc, value_error, toolset_domain, runtime_error, other, cancelled, executor_failure, nexus,
}
use nexus_mcp.Result.{ok}
use nexus_mcp.Action.{pure, lift, ◌>>=◌, ◌>>◌}
use nexus_mcp.Action.Rules.{
  Keeps, Keeps-bind, Keeps-bind-lift, Keeps-try_else, Keeps-raise, Keeps-pure,
}
use nexus_mcp.Action.Given.{Gives, Keeps-bind-Gives, Gives-if, Gives-pure, Gives-bind, Gives-lift}
use nexus_mcp.Store.{Ports}
use nexus_mcp.Toolsets.{Toolset, Digests, ids_of_grants}
use nexus_mcp.Toolsets.Validation.{is_empty_list}
use nexus_mcp.Toolsets.Changes.{create_all_published, replace_grants}
use nexus_mcp.Toolsets.Revisions.{Change}
use nexus_mcp.Toolsets.Store.{now, outside, commit, lookup_all_published}
use nexus_mcp.Toolsets.Repository.{save}
use nexus_mcp.Toolsets.UseCases.{read}
use nexus_mcp.Toolsets.Ensure.{
  on_lost_race, grant_first, establish, establish_if_none, first_unit, require_established,
  extend_grants, or_extend, ensure_all_published,
}
use nexus_mcp.Toolsets.Invariant.{IsValid, id_of}
use nexus_mcp.Toolsets.Keeping.{
  Sound, Safe, Keeps-with_unit_of_work, Keeps-read, Keeps-now, Keeps-new_id, Keeps-outside,
  Keeps-commit, Keeps-add, Keeps-save, session_rules,
}
use nexus_mcp.Base.Order.{sorted_set}
use nexus_mcp.Toolsets.Serving.{system-IsValid, changed-IsValid}
use nexus_mcp.Dict.Keyed.{find-get}

module _ (digests : Digests) (start : Dict Toolset) (ports : Ports) where
  on_lost_race-Safe : (e : Exc) → Keeps (Safe digests start) (on_lost_race e)
  unfolding on_lost_race
  on_lost_race-Safe (value_error m) = search session_rules
  on_lost_race-Safe (toolset_domain e) = search session_rules
  on_lost_race-Safe (runtime_error m) = Keeps-raise _
  on_lost_race-Safe (other m) = Keeps-raise _
  on_lost_race-Safe cancelled = Keeps-raise _
  on_lost_race-Safe (executor_failure f) = Keeps-raise _
  on_lost_race-Safe (nexus e) = Keeps-raise _

  module _ (tenant_id : String) (principal_ids : List String) where
    grant_first-Gives :
        (t : Toolset)
        → IsValid digests t
        → Gives
            (Safe digests start)
            (IsValid digests)
            (grant_first ports digests tenant_id principal_ids t)
    unfolding grant_first
    grant_first-Gives t v = Gives-if (is_empty_list principal_ids) (pure t) _ (Gives-pure t v) (
        Gives-bind (outside (now ports)) _
          (Keeps-outside digests start (now ports) (Keeps-now digests start ports))
          λ at.
            Gives-lift (replace_grants digests t t.revision principal_ids "system" at) λ u.
              changed-IsValid digests (Change.grants principal_ids "system") t u t.revision at v)

    establish-Safe : Keeps (Safe digests start) (establish ports digests tenant_id principal_ids)
    unfolding establish
    establish-Safe =
        Keeps-bind _ _ (Keeps-outside digests start _ (Keeps-new_id digests start ports)) λ id.
          Keeps-bind _ _ (Keeps-outside digests start _ (Keeps-now digests start ports)) λ at.
            Keeps-bind-lift (create_all_published digests id tenant_id "system" at) _ λ t q.
              Keeps-bind-Gives (IsValid digests) _ _
                (grant_first-Gives t (system-IsValid digests id tenant_id "system" at t q))
                λ granted v.
                  Keeps-try_else _ _ _
                    (Keeps-bind _ _ (Keeps-add digests start tenant_id granted v)
                      λ _. Keeps-commit digests start)
                    on_lost_race-Safe (λ _. Keeps-pure _)

    establish_if_none-Safe :
        (found : Option Toolset)
        → Keeps (Safe digests start) (establish_if_none ports digests tenant_id principal_ids found)
    establish_if_none-Safe none = establish-Safe
    establish_if_none-Safe (some t) = Keeps-pure none

    first_unit-Sound :
        Keeps (Sound digests start) (first_unit ports digests tenant_id principal_ids)
    unfolding first_unit
    first_unit-Sound =
        Keeps-with_unit_of_work digests start _
          (Keeps-bind _ _ (Keeps-read digests start _) establish_if_none-Safe)

    established :
        (found : Option Toolset) (t : Toolset)
        → require_established ports digests tenant_id principal_ids found ≡ ok t
        → found ≡ some t
    established none t q = ground arith
    established (some u) t q = cc

    -- What is read is valid.
    system-Gives :
        Gives
          (Safe digests start)
          (λ found. (t : Toolset) → found ≡ some t → IsValid digests t)
          (read (lookup_all_published tenant_id))
    unfolding read lookup_all_published
    system-Gives = record {
      given = λ s h.
          (λ t q. h.copies.inv.valid t.id t (find-get id_of _ t s.working h.copies.inv.keyed q), h);
    }

    extend-Safe :
        (found : Option Toolset)
        → ((t : Toolset) → found ≡ some t → IsValid digests t)
        → Keeps (Safe digests start) (
            lift (require_established ports digests tenant_id principal_ids found) >>= λ t. do
              at ← outside (now ports)
              updated ← lift (
                  replace_grants digests t t.revision
                    (sorted_set (ids_of_grants t.grants ++ principal_ids))
                    "system"
                    at)
              save tenant_id updated
              commit
              pure updated)
    extend-Safe found v =
        Keeps-bind-lift (require_established ports digests tenant_id principal_ids found) _ λ t q.
          Keeps-bind _ _ (Keeps-outside digests start _ (Keeps-now digests start ports)) λ at.
            Keeps-bind-lift
              (replace_grants digests t t.revision
                (sorted_set (ids_of_grants t.grants ++ principal_ids)) "system" at)
              _
              λ u r.
                Keeps-bind _ _
                  (Keeps-save digests start tenant_id u (
                    changed-IsValid digests
                      (Change.grants (sorted_set (ids_of_grants t.grants ++ principal_ids))
                        "system")
                      t u t.revision at (v t (established found t q)) r))
                  λ _. Keeps-bind _ _ (Keeps-commit digests start) λ _. Keeps-pure u

    extend_grants-Sound :
        Keeps (Sound digests start) (extend_grants ports digests tenant_id principal_ids)
    unfolding extend_grants
    extend_grants-Sound = Keeps-with_unit_of_work digests start _ (
        Keeps-bind-Gives (λ found. (t : Toolset) → found ≡ some t → IsValid digests t) _ _
          system-Gives extend-Safe)

    or_extend-Sound :
        (o : Option Toolset)
        → Keeps (Sound digests start) (or_extend ports digests tenant_id principal_ids o)
    or_extend-Sound none = extend_grants-Sound
    or_extend-Sound (some t) = Keeps-pure t

    pub ensure_all_published-Sound :
        Keeps (Sound digests start) (ensure_all_published ports digests tenant_id principal_ids)
    unfolding ensure_all_published
    ensure_all_published-Sound = Keeps-bind _ _ first_unit-Sound or_extend-Sound
