-- ===== src/Fastcgi.antt =====
-- src/fastcgi.h and src/fastcgi.cpp: the FastCGI record protocol.
pub mod Records
pub mod Process
