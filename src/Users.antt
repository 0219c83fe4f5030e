-- ===== src/Users.antt =====
-- src/users.c: masks of users, and the counts of users and operators.
pub mod Mask
pub mod Opers
