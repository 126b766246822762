-- ===== src/Chat.antt =====
-- shard/engines/kimi_k3/k3_tools.py: the chat format of the Kimi-K3 engine, from a prompt's segments to
-- what a completion says.
pub mod Markers
pub mod Splitter
pub mod Completion
pub mod Prompt
pub mod Message
