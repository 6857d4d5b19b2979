-- ===== src/Base/Text.antt =====
-- Python's `str`, as far as the program looks into it: equality, and whether `strip()` leaves
-- anything. A comparison goes through a decision, which hands the tactics its proof.
use Prim.Native.Nat.{ℕ, ◌+◌}
use Prim.Native.Char.{code}
use Prim.Native.String.{String}
use mathlib.Core.Path.{◌≡◌, refl}
use mathlib.Core.Logic.{◌↔◌}
use mathlib.Core.Bool.{Bool, true, false, ◌&&◌, ◌||◌, false≢true}
use mathlib.Core.Option.{Option, none, some}
use text.Mathlib.Text.{◌==◌ as str_eq}
use text.Mathlib.TextEquality.{eq_iff}
use mathlib.Core.List.{List, [], ◌∷◌, map, reverse}
use nexus_mcp.Base.Tests.{leb, eqb, if◌then◌else◌}

decide_eq : (s t : String) (b : Bool) → ((b ≡ true) ↔ (s ≡ t)) → Dec (s ≡ t)
decide_eq s t true h = yes (h.0 refl)
decide_eq s t false h = no (λ e. false≢true (h.1 e))

unfoldable pub String_discrete : Discrete String
unfolding decide_eq
String_discrete s t = decide_eq s t (str_eq s t) (eq_iff s t)

infix 50 ◌==◌
abbrev pub ◌==◌ : String → String → Bool
s == t = elim (String_discrete s t) [ yes h ↦ true | no h ↦ false ]

-- `==` on `str | None`
abbrev pub same_text? : Option String → Option String → Bool
same_text? none none = true
same_text? (some s) (some t) = s == t
same_text? _ _ = false

-- What `str.isspace` accepts, by code point: the characters that `str.strip()` removes.
is_space : ℕ → Bool
is_space c =
    (leb 9 c && leb c 13)
    || (leb 28 c && leb c 32)
    || eqb c 0x85
    || eqb c 0xa0
    || eqb c 0x1680
    || (leb 0x2000 c && leb c 0x200a)
    || (leb 0x2028 c && leb c 0x2029)
    || eqb c 0x202f
    || eqb c 0x205f
    || eqb c 0x3000

-- `not value.strip()`: nothing is left when the white space at both ends is removed exactly when
-- every character is white space.
unfoldable pub is_blank : String → Bool
unfolding is_space
is_blank String.[] = true
is_blank (String.◌∷◌ c s) = is_space (code c) && is_blank s

-- `not value`
abbrev pub is_empty : String → Bool
is_empty s = s == ""

-- The code points of a text.
abbrev pub codes : String → List ℕ
codes String.[] = []
codes (String.◌∷◌ c s) = code c ∷ codes s

drop_spaces : List ℕ → List ℕ
unfolding is_space
drop_spaces [] = []
drop_spaces (c ∷ cs) = if is_space c then drop_spaces cs else c ∷ cs

-- `str.strip()`
unfoldable pub strip : List ℕ → List ℕ
unfolding drop_spaces
strip cs = reverse (drop_spaces (reverse (drop_spaces cs)))

-- `str.lower()` of one character, for the ASCII letters.
lower : ℕ → ℕ
lower c = if leb b'A' c && leb c b'Z' then c + 32 else c

unfoldable pub strip_lower : String → List ℕ
unfolding strip lower
strip_lower s = map lower (strip (codes s))

-- `str.replace("-", "_")`
unfoldable pub underscores : List ℕ → List ℕ
underscores = map (λ c. if eqb c b'-' then b'_' else c)

unfoldable pub same_codes : List ℕ → List ℕ → Bool
same_codes [] [] = true
same_codes (c ∷ cs) (d ∷ ds) = let rest = same_codes cs ds in if eqb c d then rest else false
same_codes _ _ = false

-- `text.startswith(part)`
unfoldable pub starts_with : List ℕ → List ℕ → Bool
starts_with [] text = true
starts_with (c ∷ cs) [] = false
starts_with (c ∷ cs) (d ∷ ds) = let rest = starts_with cs ds in if eqb c d then rest else false

-- `part in text`
unfoldable pub is_part : List ℕ → List ℕ → Bool
unfolding starts_with
is_part part [] = starts_with part []
is_part part (c ∷ cs) =
    let rest = is_part part cs in if starts_with part (c ∷ cs) then true else rest
