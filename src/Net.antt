-- ===== src/Net.antt =====
-- src/net_responder.c: answering ARP requests and pings.
pub mod Responder
