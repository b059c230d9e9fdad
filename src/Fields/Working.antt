-- ===== src/Fields/Working.antt =====
-- backend/app/fields/working.py and working_schema.py: the review that an editor keeps beside a
-- ProseMirror document, checked against the positions of its text.
pub mod Encoding
pub mod Review
pub mod Tree
pub mod Spans
pub mod Validating
mod Runs
