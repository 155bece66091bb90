-- ===== src/Files.antt =====
-- The tables of open files: fs/file.c, shell/pipe.c, and the calls of fs/fs.c on descriptors.
pub mod Defs
pub mod Pipe
pub mod Calls
pub mod Table
pub mod Close
pub mod Open
pub mod Transfer
