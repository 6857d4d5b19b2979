-- ===== src/Toolsets/Uniqueness.antt =====
-- Repetitions among the values of the dictionary of src/nexusmcp/modules/toolsets/adapters/
-- in_memory.py, and what a write does to them.
use nexus_mcp.Base.{
  String, Bool, true, false, ◌&&◌, none, some, List, [], ◌∷◌, ◌≡◌, refl, arith, any,
}
use nexus_mcp.Dict.{Dict, get, put, values, find, select, repeats}
use nexus_mcp.Toolsets.{Toolset}

module _ (R : Toolset → Toolset → Bool) (p : Toolset → Bool) where
  -- Some entry of the list that `p` selects is related to the tool set.
  abbrev related : Toolset → List Toolset → Bool
  related x ts = any (R x) (select p ts)

  -- Two of the selected values are related.
  abbrev pub clash : Dict Toolset → Bool
  clash d = repeats R (select p (values d))

  related-get :
      (x u : Toolset) (k : String) (d : Dict Toolset)
      → get k d ≡ some u
      → p u ≡ true
      → R x u ≡ true
      → related x (values d) ≡ true
  unfolding get values select
  related-get x u k [] e q r = ground arith
  related-get x u k ((i, y) ∷ d) e q r = ground (arith, related-get x u k d)

  -- Where no two are related, two related entries stand under one key.
  pub clash-get :
      (t u : Toolset) (j k : String) (d : Dict Toolset)
      → clash d ≡ false
      → get j d ≡ some t
      → get k d ≡ some u
      → p t ≡ true
      → p u ≡ true
      → R t u ≡ true
      → R u t ≡ true
      → j ≡ k
  unfolding get values select repeats
  clash-get t u j k [] n e f pt pu r r' = ground arith
  clash-get t u j k ((i, y) ∷ d) n e f pt pu r r' =
      ground (arith, clash-get t u j k d, related-get t u k d, related-get u t j d)

  -- A write over a tool set that relates alike and is selected alike.
  module _ (c t : Toolset) (alike : p t ≡ p c) (right : (x : Toolset) → R x t ≡ R x c)
      (left : (y : Toolset) → R t y ≡ R c y) where
    related-put :
        (x : Toolset) (k : String) (d : Dict Toolset)
        → get k d ≡ some c
        → related x (values (put k t d)) ≡ related x (values d)
    unfolding get put values select
    related-put x k [] e = ground arith
    related-put x k ((j, u) ∷ d) e = ground (arith, related-put x k d, alike, right x)

    related-left : (ts : List Toolset) → related t ts ≡ related c ts
    unfolding select
    related-left [] = refl
    related-left (y ∷ ts) = ground (arith, related-left ts, left y)

    pub clash-put : (k : String) (d : Dict Toolset) → get k d ≡ some c → clash (put k t d) ≡ clash d
    unfolding get put values select repeats
    clash-put k [] e = ground arith
    clash-put k ((j, u) ∷ d) e =
        ground (arith, clash-put k d, alike, related-left (values d), related-put u k d)

  -- A write of a new tool set, which no selected one is related to.
  module _ (t : Toolset) where
    related-added :
        (x : Toolset) (k : String) (d : Dict Toolset)
        → get k d ≡ none
        → (p t ≡ true → R x t ≡ false)
        → related x (values d) ≡ false
        → related x (values (put k t d)) ≡ false
    unfolding get put values select
    related-added x k [] e h n = ground arith
    related-added x k ((j, u) ∷ d) e h n = ground (arith, related-added x k d)

    pub clash-added :
        (k : String) (d : Dict Toolset)
        → get k d ≡ none
        → (p t ≡ true → find (λ x. p x && R x t) (values d) ≡ none)
        → clash d ≡ false
        → clash (put k t d) ≡ false
    unfolding get put values select repeats find
    clash-added k [] e h n = ground arith
    clash-added k ((j, u) ∷ d) e h n = ground (arith, clash-added k d, related-added u k d)
