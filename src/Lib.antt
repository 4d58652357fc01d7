-- ===== src/Lib.antt =====
-- The AVTP library rs-1722: packets of IEEE 1722 (AVTP), their PCM audio format, presentation
-- timestamps, the clock times that they are made of, hardware clocks, WAV files, and PTP daemons with
-- their monitor.
--
-- The program's parts. A talker (src/avtp/formats/aaf/stream.rs) reads a synchronized PTP clock,
-- makes a timestamp of the time (src/avtp/timestamp.rs), wraps audio as an AAF packet
-- (src/avtp/formats/aaf), converts that into a stream header (src/avtp/headers/stream.rs) and
-- hands over an `Avtpdu` (src/avtp/avtpdu.rs), which is written bit by bit (src/io/enc_dec.rs). A
-- listener takes an `Avtpdu` that was read, converts it back, filters it by stream and counts
-- sequence numbers. Clock times are src/ptp_phc/time.rs, read off the clocks of src/ptp_phc/clock.rs. A
-- PTP daemon is a process (src/ptp_proto/instance.rs) whose state is parsed from the output of `pmc`
-- (src/ptp_proto/state.rs); src/bin/ptp-syncd.rs monitors two of them.
--
-- Which file models which part:
--   Prelude, Prelude/*       Boolean tests, lists, texts with the functions of `str`, integers (ℤ over
--                            the native ℕ) and Rust's machine arithmetic: `checked`, `saturated`, `div_euclid`, `as u64`.
--   Io, Io/*                 Results and errors (src/io/enc_dec.rs), the interface to bit readers and
--                            writers (Io/Stream), how their steps compose (Io/Run, Io/Steps, Io/Total,
--                            Io/Outcomes), octets and bits (Io/Bits, Io/Bytes), and codecs over small
--                            arrays (Io/Fixed). Io/Octets: readers and writers of whole bytes; Io/Loop:
--                            loops on fuel; Io/Pieces: how steps on bytes compose.
--   Io/System                Calls of a system: a result, and the world that the call leaves.
--   Ptp/Time                 `PtpTime` and its conversions; Ptp/Time/Laws.
--   Ptp/Abi                  Structures of the kernel (src/ptp_phc/abi.rs), pins, edges and errors
--                            (pin.rs, mod.rs and error.rs there).
--   Ptp/Clock                `PtpClockHardware`, `PtpClock` (src/ptp_phc/clock.rs); Clock/Laws.
--   Avtp/Timestamp           `AvtpTimestamp`, `expand_near`; Avtp/Timestamp/Laws.
--   Avtp/StreamId            `StreamID`; Avtp/Subtype: `Subtype`, with its tables.
--   Avtp/Headers/*           `CommonHeader`, `StreamHeader`, `ControlHeader`, `AlternativeHeader`:
--                            `encode`, `decode`, `decode_after_common`; Headers/Frame describes the
--                            octets of a packet independently of the codecs.
--   Avtp/Pdu                 `Avtpdu::read` and `Avtpdu::write`; Pdu/Frames: what is read and written;
--                            Pdu/Errors: how both fail.
--   Avtp/Aaf/Data            The raw format-specific fields, and the AES3 variant.
--   Avtp/Aaf/Pcm, Pcm/*      `PcmFormat`, `SampleRate`, `AafPcm`.
--   Avtp/Aaf/Packet, Packet/* `Aaf`, `AafVariant`, and the conversions from and to a stream header.
--   Avtp/Aaf/Stream, Stream/* `AafPcmTalker`, `AafPcmListener`, and `StreamFilter` of src/avtp/stream.rs.
--   Avtp/Synchronizer        `PtpSynchronizedClock` (src/avtp/synchronizer.rs); Synchronizer/Laws.
--   Avtp/Transport           `EthernetAvtpSender::send` and `EthernetAvtpReceiver::recv_next_with`
--                            (src/avtp/transport/ethernet.rs); Transport/Laws.
--   Audio/Wav                The values of src/audio/wav.rs and their errors; Wav/Header: the `fmt ` chunk;
--                            Wav/Chunk: one chunk; Wav/Preamble: what stands before the samples;
--                            Wav/File: whole files. Avtp/Aaf/Pcm/FromWav: `PcmFormat::from_wav_header`.
--   Proto/State              `PortState`, the datasets and errors (src/ptp_proto/state.rs); State/Fields:
--                            `to_map` and `parse_block`; State/Blocks: `parse_blocks`; State/Snapshot:
--                            `parse_pmc_output`.
--   Proto/Instance           `PtpInstance` (src/ptp_proto/instance.rs); Instance/Laws.
--   Syncd                    `MonitorState` of the monitor src/bin/ptp-syncd.rs; Syncd/Slave and
--                            Syncd/Master: its handlers; Syncd/Loops: its loops; Syncd/Marks,
--                            Syncd/Waiting and Syncd/Complaints: theorems.
--   Tests, Tests/*           The theorems at concrete inputs, over readers and writers of bit lists.
--
-- How the model corresponds to the code. A `Result` is an `Outcome`, with a third case for a
-- panic (`unwrap`, `expect`, `todo!`). A function that reads or writes a stream, or that changes
-- `self`, takes the state and returns the next one. Machine integers are numbers with their range
-- in a predicate (`IsValid`, `IsTalker`), and wrap as a release build computes; a `debug_assert!`
-- is not modelled. A [u8; n], an `Arc<[u8]>` and a `MacAddr` are lists of octets. Shared payloads
-- are never changed, so sharing is not modelled. The receive loop goes over the frames to come.
-- The loops that read the chunks of a WAV file run on fuel, `none` where it is used up; each
-- round takes eight bytes or more, so that as many rounds as there are bytes are enough, and one
-- more that sees the end. The monitor's loops go over the rounds before the shutdown, each with
-- what the clock reads and what becomes of the world in a sleep; a handler reads the clock once
-- at most. A `Read` is the bytes that it delivers and the error that it ends with; a `Write` has
-- room for some number of bytes, or for any.
--
-- Parameters. The crate `bitstream_io` is not part of the repository: `BitReader` and `BitWriter`
-- of Io/Stream are its interface, with its documented behaviour as laws, and Tests/Memory has an
-- instance of both. All theorems on codecs hold for every such reader and writer. The
-- synchronized clock of the talker is a parameter: a function from its state to the next state
-- and a time or an error. The synchronized clock itself takes its source in the same way,
-- instants as numbers of nanoseconds, and the operations of f64 as a parameter without laws. The
-- Ethernet socket is a function that sends, and the list of the frames and errors still to come,
-- at whose end the receive loop waits. Texts are lists of code points. The system that processes
-- run on is the record `Os`: a world, the calls on it, and without laws; `pmc`'s output comes
-- decoded. The kernel's calls on a clock device are the record `Kernel`, in the same way.
-- `TryFromPrimitive` of the crate `num_enum` is the table of discriminants.
--
-- Not modelled: opening an Ethernet channel (src/avtp/transport), the numbers of the ioctls
-- (src/ptp_phc/abi.rs), the search for devices (src/ptp_phc/device.rs), the threads that log what
-- a PTP daemon prints (src/ptp_proto/instance.rs), and the rest of the command line programs
-- (src/bin, src/bin_utils), which is input and output around these parts.
pub mod Prelude
pub mod Io
pub mod Ptp
pub mod Avtp
pub mod Proto
pub mod Syncd
pub mod Audio
pub mod Tests
