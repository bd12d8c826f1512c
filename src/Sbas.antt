-- ===== src/Sbas.antt =====
-- libneognss-obs/src/sbas.cpp with the types of libneognss-obs/include/neognss_obs/sbas.hpp.
pub mod Bits
pub mod Content
pub mod Igp
pub mod Fields
pub mod Corrections
pub mod Message
pub mod Total
pub mod Returns
pub mod Valid
pub mod Grid
