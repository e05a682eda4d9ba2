-- ===== src/Factory/Tests.antt =====
-- The theorems on the factory at concrete inputs.
mod Deployments
mod Payments
mod Timers
mod Access
