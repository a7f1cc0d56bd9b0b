-- ===== src/Examples.antt =====
-- Concrete runs of the theorems, on inputs at which their hypotheses hold.
mod Base
mod Framing
mod Keys
mod Conversation
mod Driver
mod Stack
mod Mutual
mod Host
mod Status
mod Signing
mod Honest
mod Publish
mod Inner
mod Eaphost
