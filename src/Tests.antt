-- ===== src/Tests.antt =====
-- Tests and the theorems at concrete inputs, one file for each part of the program.
mod Buffers
mod Messages
mod Serving
mod Networking
mod Programs
mod Sharing
mod Connecting
mod Polling
