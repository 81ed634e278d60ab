-- ===== src/Dto.antt =====
-- src/daemon/dto.h, src/daemon/dto.cpp and the stream types of src/node.h.
pub mod Types
pub mod Fields
pub mod Parse
pub mod Ptp
pub mod Snapshot
pub mod Print
pub mod Messages
pub mod Equivalent
pub mod Objects
pub mod Nested
pub mod Caps
pub mod RoundTrip
pub mod Uninitialised
pub mod Reading
pub mod TestData
mod Examples
