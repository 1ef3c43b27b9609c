-- ===== src/Cxx.antt =====
-- The parts of the C++ standard library that the examples rest on.
pub mod Stream
pub mod Charconv
pub mod StringMap
pub mod Signed
