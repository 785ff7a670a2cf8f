-- ===== src/Compute/Policy.antt =====
-- The default policies (compute/policy.rs).
pub mod Resources
pub mod Conservation
pub mod Supply
pub mod LockScript
pub mod Authorization
