-- ===== src/Api/Bounds.antt =====
-- The eight operations of v2.0.0/inifile.h, and the pool: its place for the next string, and the last
-- byte of each half.
