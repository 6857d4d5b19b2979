-- ===== src/Tests.antt =====
-- The properties applied to concrete inputs.
mod Calls
mod Reached
mod Choices
mod Approvals
mod Executions
mod Retries
mod Gateway
mod Ends
mod Repeats
mod Secrets
pub mod Toolsets
mod Endpoints
mod Requests
mod Publishing
mod Registering
