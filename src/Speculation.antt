-- ===== src/Speculation.antt =====
-- Speculative decoding (shard/phase0): what is proposed, and what is kept of it.
pub mod Tree
pub mod Ngram
