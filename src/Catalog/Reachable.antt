-- ===== src/Catalog/Reachable.antt =====
-- Any sequence of submissions and publications, src/nexusmcp/modules/catalog/review.py and
-- publish.py.
use nexus_mcp.Base.{
  ℕ, ◌+◌, String, true, some, List, [], ◌∷◌, ◌≡◌, refl, ap, ◌∙◌, subst, arith, inl, inr,
}
use nexus_mcp.Dict.{get, put}
use nexus_mcp.Dict.Keyed.{Keyed, put-Keyed}
use nexus_mcp.Json.{Value}
use nexus_mcp.Result.{ok, Result-cases}
use nexus_mcp.Action.Rules.{Keeps}
use nexus_mcp.Store.{Ports}
use nexus_mcp.Catalog.{ToolVersion, ToolVersionStatus, submit_for_review, is_published}
use nexus_mcp.Catalog.Store.{id_of_version, save_version}
use nexus_mcp.Catalog.Versions.{Single, put-Single_hidden, submit_for_review-ok, save_version-ok}
use nexus_mcp.Catalog.Publish.{
  CatalogStores, CatalogWorld, PublishToolCommand, publish_tool, clone_stores, settle_transaction,
}
use nexus_mcp.Catalog.Publish.Single.{Inv, Sound, clone_stores-ok, publish_tool-Sound}
use nexus_mcp.Catalog.Review.{
  SubmitToolVersionForReviewCommand, read_draft, write_review, submit_tool_version,
}

-- A submitted version is not published, so nothing is lost.
write_review-Inv :
    (tenant_id : String) (v : ToolVersion) (at : ℕ) (d e : CatalogStores)
    → Inv d
    → write_review tenant_id v at d ≡ ok (tt, e)
    → Inv e
unfolding write_review
write_review-Inv tenant_id v at d e i h = elim (Result-cases (submit_for_review v at)) [
  | inr (x, n) ↦ ground arith
  | inl (u, p) ↦ elim (Result-cases (save_version tenant_id u d.versions)) [
    | inr (x, n) ↦ ground arith
    | inl (versions, q) ↦
        let new : ToolVersion = record v {
          status = ToolVersionStatus.review;
          reviewed_at = some at;
        } in
        let written : put new.id new d.versions ≡ versions =
          ap (λ x. put x.id x d.versions) (submit_for_review-ok v u at p)
          ∙ save_version-ok tenant_id u d.versions versions q in
        let result : record d { versions = versions } ≡ e = ground arith in
        subst Inv result (record {
          tools = i.tools;
          versions =
              subst (Keyed id_of_version) written
                (put-Keyed id_of_version new d.versions i.versions);
          bindings = i.bindings;
          upstreams = i.upstreams;
          single = subst Single written (put-Single_hidden new.id new d.versions refl i.single);
        })
  ]
]

read_draft-same :
    (c : SubmitToolVersionForReviewCommand) (d e : CatalogStores) (v : ToolVersion)
    → read_draft c d ≡ ok (v, e)
    → d ≡ e
unfolding read_draft
read_draft-same c d e v h = ground arith

-- One call of a use case.
pub data CatalogOp : Type 0 where
  submitting : SubmitToolVersionForReviewCommand → CatalogOp
  publishing : PublishToolCommand → CatalogOp

module _ (ports : Ports) (sha256_json : Value → String) where
  settled-Sound :
      (tenant_id : String) (v : ToolVersion) (at : ℕ) (d : CatalogStores) (w : CatalogWorld)
      → Inv d
      → Sound w
      → Sound (settle_transaction (write_review tenant_id v at d) w).1
  settled-Sound tenant_id v at d w i h = elim (Result-cases (write_review tenant_id v at d)) [
    | inr (x, n) ↦ rw n h
    | inl ((u, e), p) ↦ rw p (write_review-Inv tenant_id v at d e i p)
  ]

  submit_tool_version-Sound :
      (c : SubmitToolVersionForReviewCommand) → Keeps Sound (submit_tool_version ports c)
  unfolding submit_tool_version
  submit_tool_version-Sound c = record {
    kept = λ w h. elim (Result-cases (clone_stores w.stores)) [
      | inr (x, n) ↦ rw n h
      | inl (d, p) ↦ elim (Result-cases (read_draft c d)) [
        | inr (x, n) ↦ rw (p, n) h
        | inl ((v, e), q) ↦
            let same = clone_stores-ok w.stores d h p ∙ read_draft-same c d e v q in
            rw (p, q)
              (settled-Sound c.context.tenant_id v (ports.times w.ticks) e
                (record w { ticks = w.ticks + 1 }) (subst Inv same h) h)
      ]
    ];
  }

  -- The catalogue after the call, whether it returned or raised.
  unfoldable pub step : CatalogOp → CatalogWorld → CatalogWorld
  step (submitting c) w = (submit_tool_version ports c w).1
  step (publishing c) w = (publish_tool ports sha256_json c w).1

  unfoldable pub run : List CatalogOp → CatalogWorld → CatalogWorld
  run [] w = w
  run (op ∷ ops) w = run ops (step op w)

  step-Sound : (op : CatalogOp) (w : CatalogWorld) → Sound w → Sound (step op w)
  unfolding step
  step-Sound (submitting c) w h = (submit_tool_version-Sound c).kept w h
  step-Sound (publishing c) w h = (publish_tool-Sound ports sha256_json c).kept w h

  run-Sound : (ops : List CatalogOp) (w : CatalogWorld) → Sound w → Sound (run ops w)
  unfolding run
  run-Sound [] w h = h
  run-Sound (op ∷ ops) w h = run-Sound ops (step op w) (step-Sound op w h)

  -- Where everything committed stands under its identifier and no tool has two published versions,
  -- any sequence of submissions for review and publications, with any commands and at any times,
  -- whether they return or raise, ends with at most one published version of each tool: two stored
  -- published versions of one tool of one tenant are the same.
  pub published_single :
      (ops : List CatalogOp) (w : CatalogWorld) (j k : String) (v u : ToolVersion)
      → Inv w.stores
      → get j (run ops w).stores.versions ≡ some v
      → get k (run ops w).stores.versions ≡ some u
      → is_published v.status ≡ true
      → is_published u.status ≡ true
      → v.tenant_id ≡ u.tenant_id
      → v.tool_id ≡ u.tool_id
      → v ≡ u
  published_single ops w j k v u i p q f g t o =
      ground (arith, (run-Sound ops w i).single j k v u p q f g t o)
