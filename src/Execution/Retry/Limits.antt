-- ===== src/Execution/Retry/Limits.antt =====
-- The constructor of `ExecuteWithRetry`, of src/nexusmcp/modules/execution/retrying_executor.py.
use nexus_mcp.Base.{ℕ, String}
use nexus_mcp.Base.Int.{ℤ, pos, negsuc, leb_ℤ}
use nexus_mcp.Errors.{value_error}
use nexus_mcp.Result.{Result, ok, err, ◌>>=◌, ◌>>◌, reject_if}

pub record RetryLimits : Type 0 where
  pub max_attempts : ℕ
  pub initial_backoff : ℕ

-- A number that has been found not to be negative.
abbrev natural : ℤ → String → Result ℕ
natural (pos n) message = ok n
natural (negsuc n) message = err (value_error message)

-- `ExecuteWithRetry(...)`: what `__init__` accepts.
unfoldable pub new_limits : ℤ → ℤ → Result RetryLimits
new_limits max_attempts initial_backoff = do
  reject_if (leb_ℤ max_attempts (pos 0)) "retry max attempts must be positive"
  m ← natural max_attempts "retry max attempts must be positive"
  b ← natural initial_backoff "retry backoff must not be negative"
  ok (record { max_attempts = m; initial_backoff = b })
