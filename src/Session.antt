-- ===== src/Session.antt =====
-- crates/session/src/session.rs: session ids and what every session does.
pub mod Hex
pub mod Meta
pub mod Trait
pub mod Redis
pub mod User
pub mod Isize
pub mod Auto
pub mod Keeping
pub mod Fresh
pub mod Working
pub mod Renewal
pub mod Stamps
pub mod Connection
pub mod Connected
pub mod Shadows
pub mod Logout
pub mod Digits
pub mod RoundTrip
pub mod Sample
mod Tests
mod RenewalTests
mod ConnectionTests
