-- ===== src/Voting.antt =====
-- voting/: votes and how they are cast, voided and counted; one-time codes.
pub mod Table
pub mod Services
pub mod Voters
pub mod Purge
pub mod Endpoints
pub mod Results
pub mod Otp
