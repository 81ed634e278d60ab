-- ===== src/Format.antt =====
-- src/daemon/video_format.h and video_format.cpp: the table of video formats and its look-ups.
pub mod Desc
pub mod Table
pub mod Lookup
pub mod Find
pub mod Audio
mod Examples
