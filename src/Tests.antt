-- ===== src/Tests.antt =====
-- Runs of the models on concrete data, and the theorems at such data.
mod Fixtures
mod Filters
mod Actions
mod Tasks
mod Settings
mod Paths
mod Inputs
mod Services
mod Files
mod Starts
mod Objects
mod Traps
mod Marks
mod Secrets
