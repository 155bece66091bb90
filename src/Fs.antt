-- ===== src/Fs.antt =====
-- fs/: inodes on the disk, the blocks of files, and paths.
pub mod Disk
pub mod Inodes
pub mod Stored
pub mod Blocks
pub mod Transfer
pub mod Chunks
pub mod Contents
pub mod Limit
pub mod Path
pub mod Names
pub mod Dirs
pub mod Removal
pub mod System
pub mod Search
pub mod Opening
pub mod Unlink
pub mod Making
pub mod Cwd
pub mod Views
pub mod Follow
pub mod Found
pub mod Climb
pub mod Released
pub mod Format
pub mod Io
