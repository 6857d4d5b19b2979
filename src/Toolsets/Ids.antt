-- ===== src/Toolsets/Ids.antt =====
-- Slugs, digests and normalized identifiers of src/nexusmcp/modules/toolsets/domain.py.
use nexus_mcp.Base.{
  ℕ, String, Bool, true, false, not, ◌&&◌, ◌||◌, List, [], ◌∷◌, is_blank, codes, length, eqb, leb,
  if◌then◌else◌,
}
use nexus_mcp.Base.Order.{add_element, sort_by, text_lt}
use nexus_mcp.Result.{Result, ok, ◌>>◌, reject_if}

-- `[a-z0-9]`
is_slug_char : ℕ → Bool
is_slug_char c = (leb b'a' c && leb c b'z') || (leb b'0' c && leb c b'9')

-- What is left of `[a-z0-9]+(?:-[a-z0-9]+)*`; the first argument tells whether a character of a
-- word stands before.
matches_slug : Bool → List ℕ → Bool
unfolding is_slug_char
matches_slug word [] = word
matches_slug word (c ∷ cs) = elim (is_slug_char c) [
  | true ↦ matches_slug true cs
  | false ↦ elim (word && eqb c b'-') [ true ↦ matches_slug false cs | false ↦ false ]
]

-- `_TOOLSET_SLUG.fullmatch`
unfoldable pub is_slug : String → Bool
unfolding matches_slug
is_slug slug = matches_slug false (codes slug)

-- `any(character not in "0123456789abcdef" for character in value)`
not_hexadecimal : List ℕ → Bool
not_hexadecimal [] = false
not_hexadecimal (c ∷ cs) =
    let rest = not_hexadecimal cs in
    if (leb b'0' c && leb c b'9') || (leb b'a' c && leb c b'f') then rest else true

-- The test of `_require_digest`.
unfoldable pub is_digest : String → Bool
unfolding not_hexadecimal
is_digest value = eqb (length (codes value)) 64 && not (not_hexadecimal (codes value))

-- The loop of `_normalized_ids`.
unfoldable pub normalize : List String → List String → Result (List String)
normalize normalized [] = ok (sort_by text_lt normalized)
normalize normalized (value ∷ values) =
    reject_if (is_blank value) "id must not be blank"
    >> normalize (add_element value normalized) values

-- `_normalized_ids`
unfoldable pub normalized_ids : List String → Result (List String)
unfolding normalize
normalized_ids values = normalize [] values
