-- ===== src/Chat.antt =====
-- services/chat_support_spans.py and retrieval/evidence_selection.py: the evidence that the chat may cite.
pub mod Spans
pub mod Ranges
pub mod Lines
pub mod Catalog
pub mod Quoting
pub mod Evidence
pub mod Selecting
mod Tests
