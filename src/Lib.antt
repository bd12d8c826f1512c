-- ===== src/Lib.antt =====
-- NeoGNSS Observatory: the C++ core, modelled and verified.
--
-- The program reads the byte streams of GNSS receivers. libcppgnss cuts a stream into frames of
-- four protocols (UBX, SBF, RTCM 3, NMEA) and hands their payloads to generated parsers;
-- libneognss-obs normalises the raw bits of navigation messages, archives UBX files as epochs and
-- plans the segments they are cut into, follows the receiver's clock and reads SBAS messages. A
-- frame goes from StreamDecoder::feed to a callback, which calls decode_raw_bits or
-- EpochAssembler::accept; the index of an archive goes from archive_index to SegmentPlanner::feed.
--
-- The files and the code they model:
--   Base          shared names, tests on numbers, lists, exclusive or, integers
--   Frame         the frame types of libcppgnss/include/cppgnss/stream.hpp
--   Crc           sbf_crc and rtcm3_crc of libcppgnss/src/stream.cpp
--   Framing       one turn of the loop of StreamDecoder::feed: the verdict on the bytes at a position
--   Stream        StreamDecoder, its feed and finish, with a callback that may throw
--   Parse         ParseResult and parse of libcppgnss/include/cppgnss/parse.hpp
--   Subframe      libcppgnss/src/ubx_subframe.cpp
--   RawBits       libneognss-obs/src/raw_bits.cpp: decode, split into Bits (the view of bits),
--                 Integrity (parity, BCH and CRC checks), Sbf and Ubx (the two kinds of frame),
--                 Formats (lengths, families, RINEX identities), Page (the fields of a
--                 generated message) and Record (the result)
--   Archive       libneognss-obs/src/ubx_archive.cpp: Epoch, Assembler (finish and accept) and Scan
--   ReceiverTime  libneognss-obs/src/receiver_time.hpp
--   Wire          the cursors and texts of libcppgnss/include/cppgnss/wire_typed.hpp, and
--                 BroadcastBits of libneognss-obs/src/broadcast_bits.hpp
--   BroadcastTime the arithmetic on ticks of libneognss-obs/src/broadcast_bits.hpp
--   UbxNav        libcppgnss/src/ubx_nav.cpp
--   Sbas          libneognss-obs/src/sbas.cpp: Bits (BitView and crc24q), Content (the messages of
--                 the header), Igp (the grid), Fields and Corrections (the bodies by type) and
--                 Message (parse_l1)
--   PppB2b        libneognss-obs/src/broadcast_pppb2b.cpp: the rows and the header, Decode (the
--                 messages by type) and Dispatch (decode_pppb2b)
--   Has           mul and power of libneognss-obs/src/broadcast_has.cpp
--   Segments      SegmentPlanner of libneognss-obs/src/reconstruction.cpp: Plan (its state, append and
--                 quarantine), Name (the file name of a segment, with the calendar), Flush, Feed
--                 (constructor, feed and finish), Index (the bytes of an index, with
--                 archive_index of libneognss-obs/src/processing.cpp) and Session (its whole use)
--   Logger        LoggerOutput of libcppgnss/examples/logger_output.hpp, whose worker thread writes
--                 the recorded bytes
--   Tests         concrete inputs
-- The other modules below these hold proofs and are named for what they prove.
--
-- How the code is read. A byte is a number below 256, a span the list of its bytes. Unsigned
-- arithmetic is cut with `% 2 ^ w` where the source's type wraps; counters of a decoder are 64 bits.
-- An exception is a value: `none`, or a constructor of the result. The callbacks of StreamDecoder
-- are functions on a state of their own; those of the archive scan are the list of their calls.
-- The two threads of LoggerOutput are interleaved: a critical section, or a call of the file system
-- with its answer, is one action, and a theorem is about every list of actions. A worker asleep on the
-- condition variable does not act before a notify_one or a spurious wake; after fwrite on a null
-- FILE nothing more is said of it; what fwrite took counts as in the file. The parser of SBAS
-- is a monad whose failures are the returned Status::invalid_content and the exception of BitView.
-- Loops over bytes take as much fuel as there are bytes, and each turn moves the position forward,
-- so that the fuel is enough: the scan of an archive is shown to return, and `scan` leaves its loop
-- where the source does. Lengths are taken below 2 ^ 64.
-- Times of the segment planner are integers, without the overflow of an int64_t, and its calendar
-- has no first or last year; Segments/Name/Enough shows that its loops over the years of a period of
-- 400 and over the months end inside a year and a month.
--
-- Not modelled. The generated parsers are not in the repository: a parser of each SBF block into the
-- fields that the source reads, the message type of RXM-SFRBX and its number are parameters, and the
-- block numbers that the generated types carry are written out. Parameters too are the reading and
-- rounding of a double, std::from_chars, SHA-256, and the file name that std::filesystem takes from
-- a path. Left aside: the Python package, the bindings, dumps for people, floating-point
-- positioning, the gnsslogger around LoggerOutput, the rest of the broadcast decoders and the
-- CommonNEX tables.
pub mod Base
pub mod Frame
pub mod Crc
pub mod Framing
pub mod Stream
pub mod Parse
pub mod Subframe
pub mod RawBits
pub mod Archive
pub mod UbxNav
pub mod BroadcastTime
pub mod Wire
pub mod ReceiverTime
pub mod Logger
pub mod Sbas
pub mod Segments
pub mod Has
pub mod PppB2b
pub mod Tests
