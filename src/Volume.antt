-- ===== src/Volume.antt =====
-- src/main.c: formatting a volume (`--init`, and the daemon's quick format), starting up, and the
-- daemon's settings.
pub mod Init
pub mod Settings
