-- ===== src/Shell.antt =====
-- The C shell of c-shell/.
pub mod Lexer
pub mod Parser
pub mod Front
pub mod Peek
pub mod Hop
mod Tests
