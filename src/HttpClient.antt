-- ===== src/HttpClient.antt =====
-- 05_http_ssl_tls/http_client.cpp.
pub mod Response
pub mod Request
pub mod Machine
pub mod Lifecycle
pub mod Cancel
pub mod Parsing
pub mod Delivery
pub mod Client
mod Examples
