-- ===== src/Packet.antt =====
-- The two packet formats, wsd_packet.c and exb_packet.c: what they share, and a module for each.
pub mod Fields
pub mod Wsd
pub mod Exb
pub mod RoundTrip
mod Tests
