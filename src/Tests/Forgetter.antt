-- ===== src/Tests/Forgetter.antt =====
-- Runs of the forgetting curve.
