-- ===== src/Examples.antt =====
-- Runs of the models on concrete inputs, at which the theorems' hypotheses hold.
mod Routes
mod Arrivals
mod Settings
mod Requests
mod Logins
mod Certificates
mod Servers
mod Counts
mod Signing
mod Sessions
mod Chains
