-- ===== src/Dto/RoundTrip.antt =====
-- What is read from what was printed, src/daemon/dto.cpp.
pub mod Senders
pub mod Receivers
pub mod Others
