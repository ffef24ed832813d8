-- ===== src/Tests.antt =====
-- Runs of the definitions at concrete inputs, and the instances of the theorems.
mod Samples
mod Decoding
mod Aggregation
mod Usage
mod Monitoring
mod Objects
mod Hearing
mod Running
mod Serving
mod Starting
mod Sensing
mod Closing
