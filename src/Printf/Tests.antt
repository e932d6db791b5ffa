-- ===== src/Printf/Tests.antt =====
-- Runs of `__int_str`, and the theorems at numbers.
