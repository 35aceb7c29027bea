-- ===== src/Helpers/Split.antt =====
-- `split_message`: what the chunks hold and how long they are.
pub mod Bounds
pub mod Content
