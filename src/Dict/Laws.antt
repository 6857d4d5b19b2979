-- ===== src/Dict/Laws.antt =====
-- The laws of dictionaries that the stores' invariants rest on.
use nexus_mcp.Base.{
  String, Bool, false, none, some, [], ◌∷◌, ◌≡◌, ◌≢◌, ◌⊎◌, arith, ◌==◌, if◌then◌else◌,
}
use nexus_mcp.Dict.{Dict, get, put, values, find}

module _ {ℓ} {V : Type ℓ} where
  pub get-put :
      (k j : String) (v : V) (d : Dict V) → get j (put k v d) ≡ (if k == j then some v else get j d)
  unfolding get put
  get-put k j v [] = ground arith
  get-put k j v ((i, w) ∷ d) = ground (arith, get-put k j v d)

  pub get-put_self : (k : String) (v : V) (d : Dict V) → get k (put k v d) ≡ some v
  get-put_self k v d = ground (arith, get-put k k v d)

  pub get-put_ne : (k j : String) (v : V) (d : Dict V) → k ≢ j → get j (put k v d) ≡ get j d
  get-put_ne k j v d h = ground (arith, get-put k j v d)

  -- What a scan of the values does not find is stored under no key.
  pub get-find-none :
      (p : V → Bool) (d : Dict V) (k : String) (v : V)
      → find p (values d) ≡ none
      → get k d ≡ some v
      → p v ≡ false
  unfolding get values find
  get-find-none p [] k v h e = ground arith
  get-find-none p ((j, w) ∷ d) k v h e = ground (arith, get-find-none p d k v)

  -- What is found after a write is what was written, or what was there.
  pub get-put_cases :
      (k j : String) (v w : V) (d : Dict V)
      → get j (put k v d) ≡ some w
      → ((k ≡ j) × (v ≡ w)) ⊎ (get j d ≡ some w)
  get-put_cases k j v w d e = ground (arith, get-put k j v d)
