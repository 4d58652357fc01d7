-- ===== src/Audio/Wav/File.antt =====
-- src/audio/wav.rs: whole WAV files.
pub mod Laws
pub mod Ends
pub mod Written
use rs.Prelude.{ℕ, ◌+◌, ◌^◌, Bool, List, [], ◌∷◌, ◌++◌, ltb, if◌then◌else◌, Option, none, some}
use rs.Io.{Outcome, ok, err, panic, IoError, invalid_input, M, ◌>>=◌, ◌>>◌, pure, lift, fail}
use rs.Io.Loop.{Turn, again, done, iterate, after_loop}
use rs.Io.Octets.{Source, Sink, read_exact}
use rs.Audio.Wav.{data_tag, WavError, io, WavChunk, ChunkHeader, WavPreamble, Wav}
use rs.Audio.Wav.Chunk.{
  read_chunk_header, read_chunk, skip_chunk_padding, write_chunk, write_chunks, serialized_size,
  serialized_sizes,
}
use rs.Audio.Wav.Header.{into_wav_chunk}
use rs.Audio.Wav.Preamble.{read_preamble, write_riff_header}

-- `while let Some(header) = ChunkHeader::read(reader)? { chunks_after_data.push(…) }`
unfoldable pub take_more :
    List WavChunk → Option ChunkHeader → M Source WavError (Turn (List WavChunk) (List WavChunk))
take_more chunks none = pure (done chunks)
take_more chunks (some header) = do chunk ← read_chunk header; pure (again (chunks ++ chunk ∷ []))

unfoldable pub more_step : List WavChunk → M Source WavError (Turn (List WavChunk) (List WavChunk))
more_step chunks = do next ← read_chunk_header; take_more chunks next

unfoldable pub read_samples : WavPreamble → M Source WavError (List ℕ)
read_samples preamble = do
  payload ← lift io (read_exact preamble.data_size)
  lift io (skip_chunk_padding preamble.data_size)
  pure payload

unfoldable pub assemble : WavPreamble → List ℕ → List WavChunk → Wav
assemble preamble payload chunks_after_data = record {
  chunks_before_fmt = preamble.chunks_before_fmt;
  header = preamble.header;
  fmt_extension = preamble.fmt_extension;
  chunks_before_data = preamble.chunks_before_data;
  payload = payload;
  chunks_after_data = chunks_after_data;
}

unfoldable pub read_rest : ℕ → WavPreamble → Source → Option (Outcome WavError (Wav × Source))
read_rest fuel preamble s = elim (read_samples preamble s) [
  | ok (payload, s') ↦
      after_loop (iterate more_step fuel [] s')
        λ chunks s''. some (ok (assemble preamble payload chunks, s''))
  | err e ↦ some (err e)
  | panic ↦ some panic
]

-- `Wav::read`, whose loops make at most `fuel` rounds each.
unfoldable pub read_wav : ℕ → Source → Option (Outcome WavError (Wav × Source))
read_wav fuel s = after_loop (read_preamble fuel s) λ preamble s'. read_rest fuel preamble s'

-- The local values of `Wav::write`.
unfoldable pub data_chunk : Wav → WavChunk
data_chunk w = record { chunk_id = data_tag; payload = w.payload }

unfoldable pub fmt_chunk : Wav → WavChunk
fmt_chunk w = into_wav_chunk w.header w.fmt_extension

unfoldable pub riff_size : Wav → ℕ
riff_size w =
    4
    + serialized_sizes w.chunks_before_fmt
    + serialized_size (fmt_chunk w)
    + serialized_sizes w.chunks_before_data
    + serialized_size (data_chunk w)
    + serialized_sizes w.chunks_after_data

unfoldable pub write_all_chunks : Wav → M Sink IoError (Unit {0})
write_all_chunks w = do
  write_riff_header (riff_size w)
  write_chunks w.chunks_before_fmt
  write_chunk (fmt_chunk w)
  write_chunks w.chunks_before_data
  write_chunk (data_chunk w)
  write_chunks w.chunks_after_data

-- `Wav::write`
unfoldable pub write_wav : Wav → M Sink IoError (Unit {0})
write_wav w = if ltb (riff_size w) (2 ^ 32) then write_all_chunks w else fail invalid_input
