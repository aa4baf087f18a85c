-- ===== src/Split.antt =====
-- inc: the functions that cut a string at its delimiters.
pub mod Scan
pub mod Fields
pub mod Marks
pub mod Words
pub mod Every
mod Tests
