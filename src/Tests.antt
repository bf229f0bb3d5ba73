-- ===== src/Tests.antt =====
-- Tests: the theorems at concrete inputs, with small stand-ins for the libraries.
pub mod Stubs
pub mod Text
pub mod Files
pub mod Tracking
pub mod Program
pub mod Runs
pub mod Images
pub mod Windows
pub mod Showing
pub mod Videos
pub mod Port
