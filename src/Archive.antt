-- ===== src/Archive.antt =====
-- EpochAssembler and scan_archive of libneognss-obs/src/ubx_archive.cpp, with the types of
-- libneognss-obs/include/neognss_obs/ubx_archive.hpp. A callback's calls are the list of their
-- events in order; a loop that runs out of fuel is `none`.
pub mod Epoch
pub mod Assembler
pub mod Scan
pub mod Held
pub mod Partition
