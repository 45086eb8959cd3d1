-- ===== src/Samples.antt =====
-- Concrete parameters, inputs, tests, and each theorem at an input that meets its hypotheses.
mod Decoders
mod Tables
mod Library
mod Frames
mod Literals
mod Filters
mod Pushdown
mod Pruning
mod Buffers
mod Files
mod Echo
mod Flights
mod Handles
mod Queries
mod Streams
mod Rows
