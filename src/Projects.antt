-- ===== src/Projects.antt =====
-- src/project-registration: the registered projects of a Host, and where they are found.
pub mod Types
pub mod Location
pub mod Located
pub mod Requests
pub mod Resolution
pub mod Preparing
pub mod Registry
pub mod Pinning
pub mod LaunchContext
pub mod Harnesses
pub mod Bundled
pub mod Advanced
pub mod Settled
pub mod Found
pub mod Repeated
pub mod Registered
pub mod Standing
pub mod Pinned
pub mod Launched
mod PinTrials
mod Trials
