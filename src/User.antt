-- ===== src/User.antt =====
-- The user programs of xv6/user/.
pub mod Grep
