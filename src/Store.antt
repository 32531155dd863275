-- ===== src/Store.antt =====
-- store: the table of knowledge that the scheduler searches.
pub mod KnowledgeTable
