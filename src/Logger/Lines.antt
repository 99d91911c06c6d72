-- ===== src/Logger/Lines.antt =====
-- x
