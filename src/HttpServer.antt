-- ===== src/HttpServer.antt =====
-- 05_http_ssl_tls/http_server.cpp.
pub mod Files
pub mod Service
pub mod Machine
pub mod Lifecycle
mod Returning
pub mod Requests
pub mod Responses
pub mod Rejections
mod Answering
mod Examples
