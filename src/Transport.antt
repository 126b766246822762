-- ===== src/Transport.antt =====
-- shard/shard/transport.py: messages as frames of bytes, over a socket that may take and give any part
-- of what it is asked for. A byte is a number below 256.
pub mod Bytes
pub mod Codec
pub mod Sending
pub mod Receiving
