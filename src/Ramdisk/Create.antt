-- ===== src/Ramdisk/Create.antt =====
-- `rd_create` of kernelspace/discos.c followed by a lookup.
pub mod Named
pub mod Place
pub mod Room
pub mod FreeInode
pub mod Found
pub mod Opened
pub mod Entered
pub mod Tidy
pub mod Added
pub mod Others
