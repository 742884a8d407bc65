-- ===== src/Examples.antt =====
-- Runs of the code on small inputs, and the theorems at such inputs.
mod Codec
mod Frames
mod Witnesses
mod Sessions
mod Commands
mod Renumbered
mod Echoes
mod Replays
mod Recordings
mod Tools
mod Canonical
