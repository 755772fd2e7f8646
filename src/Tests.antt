-- ===== src/Tests.antt =====
-- Runs of the models on small inputs, and each theorem with conditions at an input that meets them.
mod Search
mod Ignoring
mod Session
mod Threads
mod Buffers
mod Paths
mod Lang
mod Decompress
mod Files
mod Cli
mod Printing
