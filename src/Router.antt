-- ===== src/Router.antt =====
-- crates/router/src/router.rs, from registering apis to locating the one for a request.
pub mod Branch
pub mod Registry
pub mod Search
pub mod Build
pub mod Built
pub mod Locate
mod Tests
