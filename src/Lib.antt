-- ===== src/Lib.antt =====
-- Verification of the Iris VA-API driver: the decoder session and the codec translators.
--
-- The program turns VA-API decode calls into access units for a V4L2 stateful decoder. The VA layer
-- (src/va) hands each picture to a codec translator (src/codec), which writes headers with a bit writer,
-- and then to the session of its context (src/iris/session.cc), which moves access units and frames
-- between the two queues of the device through a pool of slots (src/iris/slots.cc).
--
-- Codec/ models src/codec/bitwriter.h. Writer has BitWriter, its bytes newest first; Reader has BitReader
-- with the removal of emulation prevention; Nal has append_escaped_nal and nal_ceil_log2. Their children
-- relate writer and reader through the bits written (contents) and the bits held (stream).
--
-- Codec/H264 and its children model src/codec/h264.cc: the sequence and picture parameter sets as bits
-- written from VA metadata, the level table, and the access unit that the translator makes of a picture. PictureSet
-- has the reader of the picture parameter set.
--
-- Codec/Syntax has the steps in which the other codecs write: a function from BitWriter to BitWriter, in do
-- blocks in the order of the source. Its children have what it means that a step writes what a reader of
-- plain bits reads (Codes), and this for ns, leb128 and ue.
--
-- Codec/Av1 and its children model src/codec/av1_obu.cc: Picture the VA structures that are read and
-- av1_obu.h, Sequence the sequence header and write_obu, Tiles the tile layout, Quantization the
-- quantizer, the segments and the loop filters, Motion the global motion and its reference state, Header
-- the frame header with SkipMode, Unit av1_build_temporal_unit. Translation models src/codec/av1.cc. A frame
-- that cannot be rebuilt is an Outcome that names the reason. av1_build_temporal_unit checks some
-- reasons in the middle of writing, the model before: what has been written is dropped in both. The
-- motion parameters of a reference are the first six of VA's array. Bytes past the end of the slice data are
-- left out of a tile, where the source reads on.
--
-- Codec/Vp9 models src/codec/vp9.cc: a frame is scanned from a position on, by reads that may throw.
-- Codec/Hevc models src/codec/hevc.cc: ParameterSets and Scaling the sets made from metadata,
-- PictureParameters the reader of the picture parameter set, References the
-- reference picture set, Slices the rewriting of a slice header, by steps on a reader and a writer that may
-- stop, and Translation the class HEVC.
--
-- Iris/ models src/iris. Types has the records and enumerations of session.h, slots.h and device.h.
-- Monad has code that changes a session and may throw: a function from a session to a result and the
-- session it leaves. Slots has class SlotPool. Session and its children have class Session, operation by
-- operation: Import the backlog of client buffers, Bringup the constructor and the configuration of both
-- queues, Servicing events, returned buffers and publication, Draining drain, restart and change of
-- resolution, Calls pump and the calls that the VA layer makes. Session/Tokens has the proofs about the
-- map from tokens to targets, an operation at a time, and Reachable puts them together.
--
-- How state corresponds. A target is a number, and a session holds a function from numbers to targets. The
-- map of live tokens is a sorted list of pairs. A shared frame is the index of its slot, and the slot
-- counts its holders besides the pool (use_count - 1). A descriptor is a number and -1 is none; a duplicate
-- goes by the descriptor it duplicates, and closed ones are not tracked. Tokens and counters do not wrap.
-- An OUTPUT index out of range is an exception of std::vector::at, which is not an Error: only the
-- destructor catches it. QUERYBUF is taken to report the size of the layout.
--
-- The kernel, the clock and the copy engine (Kernel) are parameters: the device carries for each kind of
-- question the list of answers to come, and every theorem holds for all lists. A deadline is the number of
-- checks before it has expired. wait gets, for each round, whether its deadline has passed by then, and
-- where that list ends the deadline has passed; no call of another thread falls between its rounds. A
-- control either exists or not; its other errors are left out.
--
-- Fuel: 32 rounds for the width of a 32-bit number, 10 for leb128 of 64 bits, 8 for padding to a byte, 33
-- for the zeros in front of an Exp-Golomb code, the length of the access unit for the search for an IDR
-- NAL unit, 32 for the logarithms and the groups of a subexponential code, 8 for the refresh flags of VP9,
-- 3 for the bytes of its sizes and 9 for the way back to the alignment bit of a slice header, which is what each loop runs at most.
--
-- Not modelled: traces, the bitstream dump, memory mapping and frame identities, since no decision of the
-- session reads them; the VA entry points but for what submit of src/va/picture.cc sets in a target
-- (Session/Tokens/Reachable), the copy engines and the allocators.
pub mod Base
pub mod Codec
pub mod Iris
