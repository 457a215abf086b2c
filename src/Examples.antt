-- ===== src/Examples.antt =====
-- The theorems at concrete inputs: a small cluster whose API server takes every write and whose
-- commands all pass.
mod World
mod Pools
mod Controllers
mod Requests
mod Blobs
mod Nbd
mod Volumes
mod Staging
