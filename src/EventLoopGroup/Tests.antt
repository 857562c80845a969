-- ===== src/EventLoopGroup/Tests.antt =====
-- A group of three loops.
