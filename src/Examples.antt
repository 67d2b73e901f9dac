-- ===== src/Examples.antt =====
-- Runs of the modelled code on small inputs, and the theorems at them.
mod Matching
mod Sending
mod Reviewing
mod Signing
mod Announcing
mod Mirroring
mod Registering
mod Ascii
mod Reading
mod Relaying
mod Receiving
mod Entering
mod Banking
