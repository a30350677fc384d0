-- ===== src/Plugin/Client/Sockets.antt =====
-- Where the sockets are.
