-- ===== src/Checks.antt =====
-- The checks that the dataclasses' `__post_init__` methods share.
use nexus_mcp.Base.{String, List, [], ◌∷◌, is_blank}
use nexus_mcp.Result.{Result, ok, ◌>>◌, reject_if}

-- `for field_name, value in (…): if not value.strip(): raise ValueError(…)`
unfoldable pub require_names : List String → Result (Unit {0})
require_names [] = ok tt
require_names (value ∷ rest) =
    reject_if (is_blank value) "field must not be blank" >> require_names rest
