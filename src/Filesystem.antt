-- ===== src/Filesystem.antt =====
-- filesystem/filesystem.c: numbers and texts in files, and the count of starts.
pub mod Hal
pub mod Values
pub mod Boot
pub mod Errors
pub mod Tests
