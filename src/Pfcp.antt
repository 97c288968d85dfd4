-- ===== src/Pfcp.antt =====
-- protocols/pfcp.py: the Packet Forwarding Control Protocol (TS 29.244) of the Sx interface.
pub mod Types
pub mod Ies
pub mod Values
pub mod Message
