-- ===== src/Reader.antt =====
-- Reading segments back: `-D` of src/main.c, and the admin requests of src/chrono_admin.c.
pub mod Dump
pub mod Reply
pub mod Admin
