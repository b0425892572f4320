-- ===== src/Apps.antt =====
-- The applications in src: what their handlers and controllers do with the framework.
pub mod Access
pub mod Clients
mod Commands
pub mod Echo
pub mod Greetings
pub mod Members
mod Tests
mod RouteTests
