-- ===== src/Wire.antt =====
-- src/common.c and src/common.h: the Ethernet + IPv4 + UDP frames that are captured.
pub mod Bytes
pub mod Checksum
pub mod Sums
pub mod Address
pub mod Frame
