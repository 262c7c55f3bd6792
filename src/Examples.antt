-- ===== src/Examples.antt =====
-- Concrete inputs: runs of the model, and the theorems at values that meet their hypotheses.
mod Data
mod Buffering
mod Flushes
mod Storing
mod Collecting
mod Parsing
mod Streams
mod Fields
