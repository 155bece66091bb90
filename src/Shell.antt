-- ===== src/Shell.antt =====
-- shell/shell.c and shell/buildin_cmd.c: how the shell splits a line into words, and resolves paths.
pub mod Path
pub mod Command
pub mod Washed
