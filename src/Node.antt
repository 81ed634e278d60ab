-- ===== src/Node.antt =====
-- src/node.cpp: the streams that a node holds, the interfaces that they are bound to, and the clock.
pub mod Interfaces
pub mod Library
pub mod State
pub mod Resources
pub mod InterfaceLaws
pub mod Steps
pub mod Streams
pub mod Gmid
pub mod GmidLaws
pub mod GmidKept
pub mod Methods
pub mod Cached
pub mod Named
pub mod Effect
pub mod MethodEffects
pub mod Atomic
pub mod AtomicAdd
pub mod Runtime
pub mod Restart
pub mod Reinsert
pub mod Applied
pub mod Ids
pub mod Keeps
pub mod Yields
pub mod Registered
pub mod RegisteredLaws
pub mod KeepsMethods
pub mod AllRegistered
pub mod Lifecycle
pub mod LifecycleLaws
pub mod Reinserted
pub mod TestLibrary
mod Examples
mod LifecycleExamples
