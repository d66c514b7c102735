-- ===== src/Models.antt =====
-- The rows of the program's tables, one child for each Django app, and the state that holds them.
-- A primary key (a random uuid) and a foreign key are numbers that are only compared. A time is a
-- number of microseconds since the epoch. A table is a list with its newest row first, which is the
-- order of the `seq` column (`Meta.ordering = ["-seq"]`), so `seq` is not stored.
pub mod Accounts
pub mod Events
pub mod Nominations
pub mod Voting
pub mod Audit
pub mod Payments
pub mod State
