-- ===== src/Protocol.antt =====
-- The packets of a server and a client together: how a client is accepted, and how it is brought up
-- to date.
pub mod Handshake
pub mod Round
