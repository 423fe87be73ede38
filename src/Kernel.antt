-- ===== src/Kernel.antt =====
-- The xv6 kernel of xv6/kernel/.
pub mod Proc
pub mod Pipe
pub mod Memory
pub mod Log
pub mod Buffers
pub mod Console
pub mod Pages
pub mod Fs
