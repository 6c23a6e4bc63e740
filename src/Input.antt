-- ===== src/Input.antt =====
-- app/src-tauri/src/input.rs: the injector of each operating system. What an operating system is asked to do is a
-- list of events.
pub mod Common
pub mod Keys
pub mod X11
pub mod Windows
pub mod Macos
pub mod Pointer
pub mod Injected
pub mod Scaling
pub mod Locks
pub mod Unmoved
mod Tests
