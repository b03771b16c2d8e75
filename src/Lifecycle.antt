-- ===== src/Lifecycle.antt =====
-- nav3d_lifecycle_manager and the lifecycle service client of nav3d_util.
pub mod Services
pub mod Manager
pub mod Operations
pub mod Bonds
pub mod Changes
pub mod Invariant
pub mod Startup
pub mod Clients
pub mod ServiceClient
pub mod ManagerClient
pub mod Retries
mod Examples
