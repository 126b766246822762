-- ===== src/Receipt.antt =====
-- Signed per-stage receipts and their settlement: shard/shard/receipt.py and shard/shard/verify.py.
pub mod Dict
pub mod Signing
pub mod Coverage
pub mod Settle
pub mod Checked
pub mod Tiling
pub mod Settlement
pub mod Roundtrip
