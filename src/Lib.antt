-- ===== src/Lib.antt =====
-- A model of the Fuse_File_System repository: a file system in user space whose operations FUSE calls
-- (homework.c), over a disk image that is read and written in blocks of 4096 bytes (misc.c), with the
-- structures of fs5600.h on it.
--
-- Parts, and where they are modelled:
--   Layout       fs5600.h: superblock, inode, directory entry, and their bytes in a block
--   State, Host  the globals of homework.c and the image; the results of a call; what comes from
--                outside: the caller's ids, the clock, whether calloc succeeds
--   Disk         misc.c: block_read, block_write
--   Bitmap       bit_set, bit_clear, bit_test, find_first_nfree_blocks,
--                modify_bitmap_and_writeback_to_disk, and the count of free blocks in fs_init
--   Paths        parse, translate, path_to_inode
--   Attributes   inode_to_stat, fs_getattr, fs_chmod, fs_utime
--   Listing      fs_readdir
--   Directory    validate_directory_and_entry, find_free_dir_entry, find_index_in_dir,
--                inode_from_mode, get_entry_name_from_path
--   Create       create_directory_entry, fs_create, fs_mkdir
--   Content      the pointers and the bytes of a file
--   Remove       unlink_directory_entry, fs_unlink, check_dir_empty, fs_rmdir
--   Rename       file_dir, fs_rename
--   Read, Write, Truncate   fs_read, fs_write, fs_truncate
--   Mount        fs_init, fs_statfs
--   Requests     the operations vector fs_ops
--   Launch       main of hwfuse.c, and block_init of misc.c
-- Volume says when a mounted volume is in order, Consistency what each of its blocks is for and how
-- every request but fs_write keeps it so, Namespace gives the abstract view, in which a directory maps
-- names to inodes, with the step of each request on it, and Atomicity treats the requests that fail. The
-- modules below a part prove what its operations do; Tests holds concrete runs. Prelude carries the
-- shared lists, words and tables.
--
-- An operation is an `Action`: from the state to a result and the next state. `ok` is a return of 0 or
-- more, `err e` a return of -e, and `fault` undefined behaviour or an abort: a failed assert, an index
-- out of an array, the free of a pointer that was not allocated. A fault ends the operation.
--
-- A block is a function from offsets to bytes, an inode has a function for its pointers and a
-- directory is a function from places to entries; only the offsets below 4096, the 1019 pointers and
-- the 128 entries that the structures have are read. An `int` is a word of 32 bits, two's complement,
-- a `size_t` one of 64; sums, differences and products wrap as in the compiled code, signed ones
-- too. The loops are structural: over the 128 entries of a block, the ten tokens of a path, the bytes
-- of a string, the blocks between two block numbers; so each has as many rounds as the code has.
--
-- What is assumed: nblks is 1, which every call passes; the image is smaller than 2 GiB where a lemma
-- says so; offsets are not negative, as the kernel guarantees; malloc and strdup succeed, while
-- calloc of a data buffer may fail. The calls of filler are returned as a list. The allocation of
-- memory is modelled only where it fails or is freed wrongly: leaks are not seen.
--
-- Not modelled: the FUSE library, whose parsing of options is a parameter of main, the messages that
-- are printed, the unit tests, and the Python tools that make images. The consistency of a volume is
-- kept by every request but fs_write, whose count of free blocks goes wrong.
pub mod Prelude
pub mod Layout
pub mod State
pub mod Host
pub mod Disk
pub mod Bitmap
pub mod Paths
pub mod Attributes
pub mod Listing
pub mod Directory
pub mod Create
pub mod Content
pub mod Remove
pub mod Rename
pub mod Read
pub mod Write
pub mod Truncate
pub mod Mount
pub mod Volume
pub mod Consistency
pub mod Namespace
pub mod Launch
pub mod Tests
pub mod Requests
pub mod Atomicity
