-- ===== src/Futures.antt =====
-- a1-futures/future.go: futures, and the wait for the first few of them.
pub mod Future
pub mod Wait
pub mod Tally
pub mod Invariant
pub mod Results
pub mod Leak
