-- ===== src/Reconcile.antt =====
-- src/daemon/reconcile_engine.cpp and its use of src/daemon/node_runtime.cpp.
pub mod Kind
pub mod Runtime
pub mod Engine
pub mod Loop
pub mod Lists
pub mod Apply
pub mod InStep
pub mod Matches
pub mod KindLaws
pub mod Drain
pub mod Idle
pub mod TestNode
mod Examples
