-- ===== src/Ramdisk.antt =====
-- The ramdisk of Jiaqian-Ramdisk-Final/kernelspace/discos.c, a file system in one arena of 2 MB.
pub mod Memory
pub mod Disk
pub mod Bitmap
pub mod Path
pub mod Lookup
pub mod Entry
pub mod Clear
pub mod Tree
pub mod Table
pub mod File
pub mod Write
pub mod Read
pub mod Kept
pub mod Counted
pub mod Sound
pub mod Contents
pub mod Create
pub mod Unlink
pub mod Reach
pub mod RoundTrip
pub mod NewFile
pub mod Ioctl
pub mod Userspace
pub mod Earlier
mod Tests
