-- ===== src/Json.antt =====
-- src/dynamic_variable.cpp: the JSON reader and the printers of dynamic values.
pub mod Dump
pub mod RoundTrip
pub mod Strings
pub mod Values
pub mod Print
