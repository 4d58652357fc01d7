-- ===== src/Audio/Wav/Preamble.antt =====
-- src/audio/wav.rs: the part of a WAV file before its samples.
pub mod Laws
pub mod Ends
pub mod Whole
pub mod Streamed
use rs.Prelude.Text.{same}
use rs.Prelude.{
  ℕ, suc, ◌-◌, ◌^◌, Bool, List, [], ◌∷◌, ◌++◌, length, drop, if◌then◌else◌, Option, none, some,
}
use rs.Io.{Outcome, ok, err, panic, IoError, M, ◌>>=◌, ◌>>◌, pure, lift, hoist, fail}
use rs.Io.Loop.{Turn, again, done, iterate, after_loop}
use rs.Io.Octets.{Source, Sink, read_exact, write_all, le32}
use rs.Audio.Wav.{
  riff, wave, fmt, data_tag, WavError, io, invalid_magic, data_before_fmt, missing_fmt_chunk,
  missing_data_chunk, WavChunk, ChunkHeader, WavHeader, WavPreamble,
}
use rs.Audio.Wav.Chunk.{read_chunk_header, read_chunk, write_chunk, write_chunks}
use rs.Audio.Wav.Header.{from_fmt_chunk_unchecked, into_wav_chunk}

unfoldable pub expect_magic : List ℕ → M Source WavError (Unit {0})
expect_magic expected = do
  buf ← lift io (read_exact 4)
  if same buf expected then pure tt else fail (invalid_magic buf expected)

unfoldable pub read_riff_header : M Source WavError (Unit {0})
read_riff_header = do expect_magic riff; buf ← lift io (read_exact 4); expect_magic wave

unfoldable pub write_riff_header : ℕ → M Sink IoError (Unit {0})
write_riff_header riff_size = do write_all riff; write_all (le32 riff_size); write_all wave

-- The variables of the loop in `WavPreamble::read`.
pub record Progress : Type 0 where
  pub chunks_before_fmt : List WavChunk
  pub chunks_before_data : List WavChunk
  pub header : Option WavHeader
  pub fmt_extension : List ℕ

abbrev pub at_start : Progress
at_start = record {
  chunks_before_fmt = [];
  chunks_before_data = [];
  header = none;
  fmt_extension = [];
}

unfoldable pub end_of_chunks : Option WavHeader → Outcome WavError (Turn Progress WavPreamble)
end_of_chunks none = err missing_fmt_chunk
end_of_chunks (some h) = err missing_data_chunk

unfoldable pub at_data :
    Progress → ℕ → Option WavHeader → Outcome WavError (Turn Progress WavPreamble)
at_data p chunk_size none = err data_before_fmt
at_data p chunk_size (some h) = ok (
    done (record {
      chunks_before_fmt = p.chunks_before_fmt;
      header = h;
      fmt_extension = p.fmt_extension;
      chunks_before_data = p.chunks_before_data;
      data_size = chunk_size;
    }))

unfoldable pub push_chunk : Progress → WavChunk → Option WavHeader → Progress
push_chunk p chunk none = record p { chunks_before_fmt = p.chunks_before_fmt ++ chunk ∷ [] }
push_chunk p chunk (some h) = record p { chunks_before_data = p.chunks_before_data ++ chunk ∷ [] }

unfoldable pub take_fmt :
    Progress → WavChunk → Outcome WavError WavHeader → Outcome WavError (Turn Progress WavPreamble)
take_fmt p chunk (ok decoded) =
    ok (again (record p { fmt_extension = drop 16 chunk.payload; header = some decoded }))
take_fmt p chunk (err e) = err e
take_fmt p chunk panic = panic

unfoldable pub take_chunk : Progress → WavChunk → Outcome WavError (Turn Progress WavPreamble)
take_chunk p chunk =
    if same chunk.chunk_id fmt
    then take_fmt p chunk (from_fmt_chunk_unchecked chunk)
    else ok (again (push_chunk p chunk p.header))

unfoldable pub after_header :
    Progress → Option ChunkHeader → M Source WavError (Turn Progress WavPreamble)
after_header p none = hoist (end_of_chunks p.header)
after_header p (some chunk_header) =
    if same chunk_header.chunk_id data_tag
    then hoist (at_data p chunk_header.chunk_size p.header)
    else (do chunk ← read_chunk chunk_header; hoist (take_chunk p chunk))

unfoldable pub read_step : Progress → M Source WavError (Turn Progress WavPreamble)
read_step p = do next ← read_chunk_header; after_header p next

-- `WavPreamble::read`, whose loop makes at most `fuel` rounds.
unfoldable pub read_preamble : ℕ → Source → Option (Outcome WavError (WavPreamble × Source))
read_preamble fuel s = elim (read_riff_header s) [
  | ok (_, s') ↦ iterate read_step fuel at_start s'
  | err e ↦ some (err e)
  | panic ↦ some panic
]

unfoldable pub write_stream : WavPreamble → M Sink IoError (Unit {0})
write_stream p = do
  write_riff_header (2 ^ 32 - 1)
  write_chunks p.chunks_before_fmt
  write_chunk (into_wav_chunk p.header p.fmt_extension)
  write_chunks p.chunks_before_data
  write_all data_tag
  write_all (le32 (2 ^ 32 - 1))
