-- ===== src/App.antt =====
-- app/src-tauri/src/main.rs: the state of the application and the commands of its frontend.
pub mod Approval
pub mod Relays
pub mod Login
pub mod Startup
pub mod Recordings
pub mod Preferences
pub mod Copying
pub mod Sessions
pub mod Commands
mod Tests
