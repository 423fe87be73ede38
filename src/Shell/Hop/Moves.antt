-- ===== src/Shell/Hop/Moves.antt =====
-- The directories that `hopping` goes to, and the way back.
