-- ===== src/Segments.antt =====
-- SegmentPlanner of libneognss-obs/src/reconstruction.cpp and the index that it reads.
pub mod Plan
pub mod Index
pub mod Name
pub mod Flush
pub mod Feed
pub mod Spans
pub mod Cover
pub mod Session
pub mod Emptied
pub mod Gains
pub mod Times
pub mod Order
pub mod Sorted
pub mod Errors
pub mod RoundTrip
pub mod Conserved
