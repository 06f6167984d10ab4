-- ===== src/Loader/Segments.antt =====
-- What `bootmain` of boot/main.c loads where.
