-- ===== src/Fs.antt =====
-- kernel/fs.c of Project4/4b xv6 Kernel Thread: path names, the block bitmap, the inode cache, and the
-- blocks of a file.
pub mod Path
pub mod Resolve
pub mod Names
pub mod Link
pub mod Created
pub mod Bitmap
pub mod Found
pub mod Blocks
pub mod Inodes
pub mod Cached
pub mod Contents
mod Tests
