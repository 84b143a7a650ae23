-- ===== src/Linux/Whole/Ordered.antt =====
-- `cmdVpn` on Linux: what is held along a session.
