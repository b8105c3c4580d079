-- ===== src/Startup.antt =====
-- src/main.c: options, start-up in each mode, and the signal handlers; src/port_init.c.
pub mod Options
pub mod Port
pub mod Start
pub mod Shutdown
pub mod CommandLine
