-- ===== src/Sort/Agree.antt =====
-- The three sorts of datastruct/sort.c on the same array.
