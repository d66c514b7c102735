-- ===== src/Accounts.antt =====
-- accounts/: how staff users are created, log in, refresh their tokens and log out.
pub mod Users
pub mod Login
pub mod Sessions
