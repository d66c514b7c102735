-- ===== src/Examples.antt =====
-- Concrete states and requests, and the theorems applied to them.
mod Data
mod Votes
mod Codes
mod Limits
mod Rest
mod Doors
mod Boxes
mod Tables
mod Entrances
mod Dispatching
mod Reports
