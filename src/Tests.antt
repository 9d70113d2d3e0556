-- ===== src/Tests.antt =====
-- Runs of the models on small inputs, and each property that has hypotheses at such an input.
mod Samples
mod Tables
mod Sending
mod Punching
mod Idling
mod Interfaces
mod Channels
mod Agreeing
mod Queueing
mod Starting
mod Receiving
mod Servers
mod Threading
mod Locking
mod Ending
mod Hearing
mod Stuns
mod Detecting
