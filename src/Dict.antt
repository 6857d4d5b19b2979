-- ===== src/Dict.antt =====
-- Python's `dict` with text keys, in insertion order.
pub mod Laws
pub mod Keyed
use nexus_mcp.Base.{
  String, Bool, true, false, Option, none, some, List, [], ◌∷◌, ◌==◌, if◌then◌else◌, any, ◌||◌,
}

abbrev pub Dict {ℓ} : Type ℓ → Type ℓ
Dict V = List (String × V)

module _ {ℓ} {V : Type ℓ} where
  -- `d.get(k)`
  unfoldable pub get : String → Dict V → Option V
  get k [] = none
  get k ((j, v) ∷ d) = if k == j then some v else get k d

  -- `d[k] = v`: in place where the key is there, else at the end.
  unfoldable pub put : String → V → Dict V → Dict V
  put k v [] = (k, v) ∷ []
  put k v ((j, w) ∷ d) = if k == j then (j, v) ∷ d else (j, w) ∷ put k v d

  -- `d.values()`
  unfoldable pub values : Dict V → List V
  values [] = []
  values ((j, v) ∷ d) = v ∷ values d

  -- `next((v for v in vs if p(v)), None)`
  unfoldable pub find : (V → Bool) → List V → Option V
  find p [] = none
  find p (v ∷ vs) = if p v then some v else find p vs

  -- `tuple(v for v in vs if p(v))`
  unfoldable pub select : (V → Bool) → List V → List V
  select p [] = []
  select p (v ∷ vs) = let rest = select p vs in if p v then v ∷ rest else rest

  -- `{key(v): v for v in vs}`, on top of what the dictionary holds.
  unfoldable pub index : (V → String) → Dict V → List V → Dict V
  index key d [] = d
  index key d (v ∷ vs) = index key (put (key v) v d) vs

  -- `len(vs) != len(set(vs))`
  unfoldable pub repeats : (V → V → Bool) → List V → Bool
  repeats same [] = false
  repeats same (v ∷ vs) = any (same v) vs || repeats same vs
