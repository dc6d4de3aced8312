-- ===== src/Tests.antt =====
-- Runs of the models on concrete inputs, by the part of the program that they are about.
pub mod Streams
pub mod Keys
pub mod Groups
pub mod Loop
pub mod Tools
pub mod Gates
pub mod Events
pub mod Chains
pub mod Workers
pub mod Claimants
pub mod Logs
