-- ===== src/Time/Tests.antt =====
-- Examples of times.
