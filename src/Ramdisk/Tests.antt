-- ===== src/Ramdisk/Tests.antt =====
-- The theorems on Jiaqian-Ramdisk-Final/kernelspace/discos.c at concrete disks and systems.
mod Samples
mod Blocks
mod Tables
mod Create
mod Unlink
mod Earlier
mod Calls
mod Files
mod Paths
