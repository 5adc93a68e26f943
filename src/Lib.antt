-- ===== src/Lib.antt =====
-- A file system on a ramdisk, and the heap, queue, threads and console of a small kernel.
--
-- THE PROGRAM
-- Jiaqian-Ramdisk-Final/kernelspace/discos.c keeps a file system of 2 MB in one block of memory:
-- a superblock with two counts, 1024 inodes, a bitmap, and 7931 data blocks of 256 bytes, which
-- hold the bytes of files, the entries of directories, or pointers to other blocks. The operations
-- rd_mkdir, rd_create, rd_unlink and rd_chmod change the tree of files; rd_open, rd_lseek, rd_write,
-- rd_read and rd_close work on file objects in a table of file descriptors. The tree operations find
-- a directory by its path (my_find_inode_number, after parse_absolute_path), look for a free entry
-- (get_next_entry) or clear one (clear_entry_in_current_dir), and take and give back blocks by way
-- of the bitmap. discosModule.c is the entry point of the kernel module, which copies the arguments
-- of a call from the user and hands it to one of these operations; userspace_interface.c makes the
-- calls. FileSystem-v3 is a small kernel: heap.c is its memory, queue.c the queue from which
-- thread.c schedules its threads in turn, print.c its text screen, and memos.c prints on it the map of
-- the memory that the boot loader hands over; init.c sets all of this up and starts three threads,
-- which the timer of interrupt.c interrupts.
--
-- WHERE IT IS MODELLED
--   Prelude                    tests on numbers, the C type int, lists, loops that may stop early
--   Ramdisk/Memory, Disk       the structures of discos.h: the arena as bytes, inodes, the tables
--   Ramdisk/Bitmap             set_bitmap, clear_bitmap, get_free_block_num_from_bitmap,
--                              allocate_data_block, get_free_inode_num, allocate_inode
--   Ramdisk/Path, Lookup       parse_absolute_path, my_find_inode_number, find_entry_in_current_dir
--   Ramdisk/Entry, Clear       get_next_entry; my_clear_inode, clear_entry_in_current_dir
--   Ramdisk/Tree               init_file_sys, rd_mkdir, rd_create, rd_unlink, rd_chmod
--   Ramdisk/Table, File        get_fd_table, create_file_object; rd_open, rd_lseek, rd_close
--   Ramdisk/Write, Read        rd_write and rd_read, by their stages: direct, single, double
--   Ramdisk/Reach              sequences of operations, and what holds in all states they reach
--   Ramdisk/Contents           a file as an array of bytes, and its blocks against the bitmap
--   Ramdisk/RoundTrip, NewFile rd_write, rd_lseek, rd_read one after the other; the same for a
--                              file just made and opened
--   Ramdisk/Create, Unlink     rd_create or rd_unlink, then a lookup and an open by the path;
--                              both and the other names
--   Ramdisk/Ioctl              kernelspace/discosModule.c: discos_ioctl and its copies
--   Ramdisk/Userspace          userspace/userspace_interface.c, down to the operations
--   Ramdisk/Earlier            Ramdisk/userspace/discos.c, where it differs
--   Ramdisk/Kept               the operations that allocate, write by write, over any invariant
--   Ramdisk/Counted, Sound     two such invariants: the count of free blocks is right; no two files
--                              share a block
--   Fifos/Heap, Queue          FileSystem-v3/heap.c and queue.c; Fifos/Heap/Blocks is the heap as
--                              a list of blocks
--   Fifos/Thread, Console      FileSystem-v3/thread.c and print.c
--   Fifos/Thread/Events        the timer's interrupts and the returns of threads, as steps; a return
--                              is one step (finish, trap, schedule), which the code does not
--                              ensure, since only stash disables interrupts; an interrupt in it is
--                              modelled behind the poll (interrupted_finish), nowhere else
--   Fifos/MemoryMap            FileSystem-v3/memos.c, over the structures of multiboot.h
--   Fifos/Start                FileSystem-v3/init.c, and the ports of interrupt.c
-- The files below a module prove what its name says; Tests holds concrete runs of the theorems.
--
-- STATE AND CONVENTIONS
-- A Disk is *discos; a System is *discos, *p_fd_table and read_buffer. An address is the distance
-- from discos, so that a pointer to a block is a number and NULL is 0; an inode pointer is the index
-- of the inode; a file object is its table and its slot. An operation takes the state and returns
-- its status and the new state, on error paths too. A status is an int (ℤ of Prelude/Int); unsigned
-- ints wrap round at 2^32. The text "dir", "reg" or "" in an inode is a FileType. A C string is its
-- bytes before the NUL; names longer than 13 bytes run over the entry's number as in the code.
-- What the code takes for granted is taken here: vmalloc and kmalloc succeed and give zeroed blocks
-- that are long enough, file numbers and byte counts are not negative, inode numbers are below 1024.
-- copy_to_user, copy_from_user and strnlen_user of the Linux kernel are parameters, with what is
-- asked of them (Copies, IsKernel) as hypotheses. What a new block of memory holds is a
-- parameter in Ramdisk/Ioctl and Ramdisk/Earlier, where the buffers for the parts of a path
-- (Leftover) are not cleared. ioctl_args_t is taken to be copied whole. A call whose outcome the
-- C code leaves open (a path that does not end in its block, a NULL path, a negative size) has
-- none.
--
-- LOOPS AND FUEL
-- A for loop is for_until, for_range, find_from or first_some (Prelude/Loops) with the source's
-- bounds. copy_pages and copy_in have a round for each byte and one more: each round but the last
-- takes 4096 off the bytes left. A string of the user is read over at most 2^32 bytes, all that there
-- are. The search of malloc has 2^17 + 1 rounds, one for each 8 bytes of the heap and one more: a
-- block of the heap has 8 bytes at least; a search that does not end within them is none. The loop of
-- print_memory_map has a round for each byte of the map and one more: a region has 4 bytes at least.
--
-- NOT MODELLED
-- printk and the printing helpers; freeing of memory that is not used again; the registration of the
-- module with the kernel; the main and the printing of Ramdisk/userspace/discos.c, and what it has in
-- common with kernelspace/discos.c; the texts that the three threads of FileSystem-v3 print, which an
-- interrupt can break off at any byte; boot.s and context.s (assembly), but for the way from the timer
-- to schedule.

pub mod Fifos
pub mod Prelude
pub mod Ramdisk
