-- ===== src/Runs.antt =====
-- Runs on concrete inputs, by part.
mod Accumulator
mod Configured
mod Devices
mod Hygon
mod Logs
mod Measured
mod Policies
mod Parties
mod Sealed
mod Sent
mod Served
mod Tokens
mod Toy
mod Wire
