-- ===== src/Audio/Wav/Preamble/Streamed.antt =====
-- src/audio/wav.rs: the preamble that is written before a stream of samples is read back.
use rs.Prelude.{
  ℕ, ◌-◌, ◌^◌, ◌<◌, ◌≡◌, refl, ◌∙◌, List, ◌++◌, length, All, All-map, some, none, arith,
  append_assoc,
}
use rs.Io.{ok, IoError}
use rs.Io.Octets.{vec, write_all, le32}
use rs.Io.Pieces.{source, Emits, Emits-write_all, Emits-then}
use rs.Audio.Wav.{WavChunk, data_tag, WavPreamble}
use rs.Audio.Wav.Chunk.Laws.{Emits-write_chunk, Emits-write_chunks}
use rs.Audio.Wav.Header.{into_wav_chunk}
use rs.Audio.Wav.Preamble.{read_preamble, write_stream}
use rs.Audio.Wav.Preamble.Ends.{read_preamble_ends}
use rs.Audio.Wav.Preamble.Laws.{IsPlain, riff_bytes, Emits-write_riff_header}
use rs.Audio.Wav.Preamble.Whole.{IsFaithful, preamble_bytes, read_preamble_back, with_extension}

-- The preamble as it is written: its data size is the largest.
abbrev pub streamed : WavPreamble → WavPreamble
streamed p = record p { data_size = 2 ^ 32 - 1 }

IsFaithful-streamed : (p : WavPreamble) → IsFaithful p → IsFaithful (streamed p)
IsFaithful-streamed p h = record {
  before_fmt = h.before_fmt;
  before_data = h.before_data;
  header_back = h.header_back;
  fmt_fits = h.fmt_fits;
  size_fits = omega arith;
}

-- The bytes that `write_stream` puts before the samples.
unfoldable pub stream_bytes : WavPreamble → List ℕ
stream_bytes p = riff_bytes (2 ^ 32 - 1) ++ preamble_bytes (streamed p)

pub payloads_fit : (cs : List WavChunk) → All IsPlain cs → All (λ c. length c.payload < 2 ^ 32) cs
payloads_fit cs h = All-map (λ c p. p.writable.payload_fits) cs h

Emits-write_stream : (p : WavPreamble) → IsFaithful p → Emits (write_stream p) (stream_bytes p)
unfolding write_stream stream_bytes preamble_bytes
Emits-write_stream p h = Emits-then (Emits-write_riff_header (2 ^ 32 - 1)) (
    Emits-then (Emits-write_chunks p.chunks_before_fmt (payloads_fit _ h.before_fmt)) (
      Emits-then (Emits-write_chunk (into_wav_chunk p.header p.fmt_extension) h.fmt_fits) (
        Emits-then (Emits-write_chunks p.chunks_before_data (payloads_fit _ h.before_data))
          (Emits-then (Emits-write_all data_tag) (Emits-write_all (le32 (2 ^ 32 - 1)))))))

-- For a preamble whose header is read back from its `fmt ` chunk, and whose other chunks fit their
-- size fields, have identifiers of four bytes and are not `fmt ` or `data`: `write_stream` puts
-- its bytes into an empty buffer, and `read`, with more rounds of fuel than bytes, takes just
-- these bytes off, whatever samples follow and however the stream ends, and returns the preamble
-- with the written extension and the largest data size.
pub read_preamble-write_stream :
    (p : WavPreamble) (samples : List ℕ) (ending : IoError) (fuel : ℕ)
    → IsFaithful p
    → length (stream_bytes p ++ samples) < fuel
    → (write_stream p vec ≡ ok (tt, record { written = stream_bytes p; room = none }))
      × (read_preamble fuel (source (stream_bytes p ++ samples) ending)
          ≡ some (ok (with_extension (streamed p), source samples ending)))
unfolding stream_bytes
read_preamble-write_stream p samples ending fuel h enough = (
  (Emits-write_stream p h).run vec ∙ (unfold write_all in refl),
  rw (append_assoc (riff_bytes (2 ^ 32 - 1)) (preamble_bytes (streamed p)) samples) (
      read_preamble_back (streamed p) (IsFaithful-streamed p h) samples ending (2 ^ 32 - 1) fuel (
        read_preamble_ends fuel _ (
          rw (append_assoc (riff_bytes (2 ^ 32 - 1)) (preamble_bytes (streamed p)) samples) at
            enough))),
)
