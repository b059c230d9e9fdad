-- ===== src/Documents/RevisionCommit/Processing.antt =====
-- The processing jobs around a `commit` of backend/app/documents/revision_commit.py.
