-- ===== src/Shutdown.antt =====
-- shutdown_send_client.cpp and shutdown_send_server.cpp: each side sends binary data of a length that
-- the other does not know, and marks its end by shutdown_send.
mod Code
mod Network
mod Printing
mod Invariant
mod Progress
mod Mains
mod Examples
