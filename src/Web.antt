-- ===== src/Web.antt =====
-- src/web_status.c: the web server. A request line is its bytes; what the C library's conversions
-- read is a parameter, the number and the text after it.
pub mod Request
pub mod Response
pub mod Query
pub mod Routes
pub mod Status
pub mod Server
