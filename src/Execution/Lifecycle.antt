-- ===== src/Execution/Lifecycle.antt =====
-- `ExecutionLifecycle` of src/nexusmcp/modules/execution/lifecycle.py: each method is one unit of
-- work. `Plan` and `Finish` hold the longer ones.
mod Events
mod Plan
mod Finish
unfoldable pub use Events.*
unfoldable pub use Plan.*
unfoldable pub use Finish.*
