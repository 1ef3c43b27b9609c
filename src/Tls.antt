-- ===== src/Tls.antt =====
-- ssl_synchronous_client.cpp and ssl_synchronous_server.cpp: the request of the other applications
-- over an encrypted stream. The TLS library is a parameter: a handshake ends with some code, which
-- for the client may depend on what its verification callback answers.
mod Client
mod Server
mod Verified
mod Refines
mod Examples
