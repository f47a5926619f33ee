-- ===== src/Witness/Changes.antt =====
-- The theorem on `incr`, applied to the first entry of the deque of two values.
