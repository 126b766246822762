-- ===== src/Tests.antt =====
-- Small inputs, and what the program does on them.
mod Receipts
mod Rings
mod Spares
mod Jobs
mod Stalls
mod Pool
mod Drafts
mod Messages
mod Manifests
mod Chats
mod Prompts
mod Pools
mod Names
