-- ===== src/Markdown.antt =====
-- src/markdown.c, the document engine.
pub mod Renumber
pub mod Document
pub mod Working
pub mod Monad
pub mod Stage
pub mod Edit
pub mod Version
