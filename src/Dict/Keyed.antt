-- ===== src/Dict/Keyed.antt =====
-- Dictionaries whose values stand under the key that is read off them, as all repositories of the
-- program keep theirs.
use mathlib.Core.List.{append-nil, append_assoc}
use mathlib.Core.Path.{◌≡⟨◌⟩◌, ◌∎}
use nexus_mcp.Base.{
  String, Bool, false, none, some, [], ◌∷◌, ◌++◌, ◌==◌, ◌≡◌, refl, sym, ap, arith, any, inl, inr,
  Bool-cases,
}
use nexus_mcp.Dict.{Dict, get, put, values, find, index, repeats}
use nexus_mcp.Dict.Laws.{get-put}

module _ {V : Type 0} where
  pub get-put_fresh :
      (k : String) (v : V) (d : Dict V) → get k d ≡ none → put k v d ≡ d ++ (k, v) ∷ []
  unfolding get put
  get-put_fresh k v [] h = refl
  get-put_fresh k v ((j, u) ∷ d) h = ground (arith, get-put_fresh k v d)

  get-append :
      (k : String) (d e : Dict V)
      → get k (d ++ e) ≡ (elim (get k d) [ none ↦ get k e | some v ↦ some v ])
  unfolding get
  get-append k [] e = refl
  get-append k ((j, u) ∷ d) e = ground (arith, get-append k d e)

  -- No key of the one stands in the other.
  abbrev Apart : Dict V → Dict V → Type 0
  Apart a d = (k : String) (v : V) → get k d ≡ some v → get k a ≡ none

  nil-Apart : (d : Dict V) → Apart [] d
  unfolding get
  nil-Apart d k v e = refl

  module _ (a : Dict V) (k : String) (v : V) (d : Dict V) (n : get k d ≡ none)
      (x : Apart a ((k, v) ∷ d)) where
    head-Apart : get k a ≡ none
    unfolding get
    head-Apart = x k v (ground arith)

    tail-Apart : Apart (a ++ (k, v) ∷ []) d
    unfolding get
    tail-Apart j u e = ground (arith, get-append j a ((k, v) ∷ []), x j u)

module _ {V : Type 0} (key : V → String) where
  -- Each value stands once, under its key.
  abbrev pub Keyed : Dict V → Type 0
  Keyed [] = Unit {0}
  Keyed ((k, v) ∷ d) = (k ≡ key v) × (get k d ≡ none) × Keyed d

  pub put-Keyed : (v : V) (d : Dict V) → Keyed d → Keyed (put (key v) v d)
  unfolding put get
  put-Keyed v [] h = (refl, refl, tt)
  put-Keyed v ((k, u) ∷ d) (e, n, h) = elim (Bool-cases (key v == k)) [
    | inl same ↦ rw same (ground arith, n, h)
    | inr other ↦ rw other (e, ground (arith, get-put (key v) k v d), put-Keyed v d h)
  ]

  -- The value stands under its key.
  pub Keyed-get : (k : String) (v : V) (d : Dict V) → Keyed d → get k d ≡ some v → k ≡ key v
  unfolding get
  Keyed-get k v [] h e = ground arith
  Keyed-get k v ((j, u) ∷ d) h e = ground (arith, Keyed-get k v d)

  -- What a scan of the values finds is stored under its key.
  pub find-get :
      (p : V → Bool) (v : V) (d : Dict V)
      → Keyed d
      → find p (values d) ≡ some v
      → get (key v) d ≡ some v
  unfolding get values find
  find-get p v [] h e = ground arith
  find-get p v ((k, u) ∷ d) (i, n, h) e = ground (arith, find-get p v d h)

  absent-any :
      (v : V) (d : Dict V)
      → Keyed d
      → get (key v) d ≡ none
      → any (λ u. key v == key u) (values d) ≡ false
  unfolding get values
  absent-any v [] h e = refl
  absent-any v ((j, u) ∷ d) h e = ground (arith, absent-any v d)

  pub Keyed-repeats : (d : Dict V) → Keyed d → repeats (λ v u. key v == key u) (values d) ≡ false
  unfolding repeats values
  Keyed-repeats [] h = refl
  Keyed-repeats ((k, v) ∷ d) (e, n, h) =
      ground (arith, absent-any v d h (rw (sym e) n), Keyed-repeats d h)

  index-append : (a d : Dict V) → Keyed d → Apart a d → index key a (values d) ≡ a ++ d
  unfolding index values
  index-append a [] h x = sym (append-nil a)
  index-append a ((k, v) ∷ d) (e, n, h) x =
      index key (put (key v) v a) (values d)
      ≡⟨ ap (λ j. index key (put j v a) (values d)) (sym e) ⟩ index key (put k v a) (values d)
      ≡⟨ ap (λ b. index key b (values d)) (get-put_fresh k v a (head-Apart a k v d n x)) ⟩
        index key (a ++ (k, v) ∷ []) (values d)
      ≡⟨ index-append (a ++ (k, v) ∷ []) d h (tail-Apart a k v d n x) ⟩ (a ++ (k, v) ∷ []) ++ d
      ≡⟨ append_assoc a ((k, v) ∷ []) d ⟩ a ++ (k, v) ∷ d ∎

  -- The values of a dictionary, put under their keys again, make the same dictionary.
  pub index-values : (d : Dict V) → Keyed d → index key [] (values d) ≡ d
  index-values d h = index-append [] d h (nil-Apart d)
