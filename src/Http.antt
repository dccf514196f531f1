-- ===== src/Http.antt =====
-- src/http.cpp, by its parts.
pub mod Url
pub mod Query
pub mod Base64
pub mod Text
pub mod Cookies
pub mod Multipart
pub mod Forms
