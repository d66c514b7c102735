-- ===== src/Ip/Spoofing.antt =====
-- A client does not choose its own address.
