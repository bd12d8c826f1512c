-- ===== src/Tests.antt =====
-- Concrete inputs at which the theorems apply.
mod Streams
mod Messages
mod Times
mod Components
mod Plans
mod Corrections
