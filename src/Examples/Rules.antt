-- ===== src/Examples/Rules.antt =====
-- The construction of policies.
