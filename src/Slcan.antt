-- ===== src/Slcan.antt =====
-- SLCAN, the text protocol of USB-CAN adapters (engine/crates/slcan). A character is its code; the
-- characters of a received line are bytes, those from 128 taking two bytes of UTF-8.
pub mod Commands
pub mod Hex
pub mod Encode
pub mod Decode
