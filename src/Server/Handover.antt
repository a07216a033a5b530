-- ===== src/Server/Handover.antt =====
-- Two sessions of one principal in src/server.rs: what `try_register` of the newer one means for the
-- commands of the older one.
use aircd.World.{World}
