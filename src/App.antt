-- ===== src/App.antt =====
-- src/daemon/state_store.cpp and the synchronisation part of src/daemon/app.cpp.
pub mod Store
pub mod State
pub mod Merge
pub mod Config
pub mod Update
pub mod UpdateLaws
pub mod Settings
pub mod Handlers
pub mod Loop
pub mod Schedule
pub mod Sync
pub mod Connection
pub mod Reachable
pub mod Debounce
pub mod Protection
mod Examples
