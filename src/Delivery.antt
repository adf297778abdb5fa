-- ===== src/Delivery.antt =====
-- The delivery of issues: .sandcastle/issue-delivery.mjs.
pub mod Claims
pub mod Exclusion
pub mod Review
pub mod Reviewed
pub mod Scope
pub mod Scoped
pub mod ScopeFuel
pub mod Descendants
pub mod Parents
mod Examples
mod ScopeTrials
