-- ===== src/Examples.antt =====
-- The theorems at concrete inputs.
mod Data
mod Tables
mod Projection
mod Streams
mod Submissions
mod Texts
mod Wires
mod Connections
mod Interleaved
mod Pages
mod Buckets
mod Filters
mod Running
mod Requests
