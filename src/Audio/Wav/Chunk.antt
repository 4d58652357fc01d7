-- ===== src/Audio/Wav/Chunk.antt =====
-- src/audio/wav.rs: chunks, one at a time.
pub mod Laws
pub mod Ends
use rs.Prelude.{
  ℕ, ◌+◌, ◌%◌, ◌^◌, ◌≤◌, ◌<◌, ◌≡◌, Bool, true, false, List, [], ◌∷◌, ◌++◌, length, ltb, ◌==◌,
  if◌then◌else◌, Option, none, some, All,
}
use rs.Io.{
  Outcome, ok, err, panic, IoError, unexpected_eof, invalid_input, write_zero, M, ◌>>=◌, ◌>>◌, pure,
  lift, fail, IsByte,
}
use rs.Io.Octets.{Source, Sink, read_exact, write_all, le32, from_le32}
use rs.Audio.Wav.{WavError, io, WavChunk, ChunkHeader}

-- `u32::from_le_bytes(buf)`, for a buffer of four bytes.
unfoldable pub u32_of : List ℕ → ℕ
u32_of [] = 0
u32_of (a ∷ []) = 0
u32_of (a ∷ b ∷ []) = 0
u32_of (a ∷ b ∷ c ∷ []) = 0
u32_of (a ∷ b ∷ c ∷ d ∷ rest) = from_le32 a b c d

unfoldable pub read_chunk_size : List ℕ → M Source WavError (Option ChunkHeader)
read_chunk_size chunk_id = do
  size_buf ← lift io (read_exact 4)
  pure (some (record { chunk_id = chunk_id; chunk_size = u32_of size_buf }))

-- No header where the stream ends before one, or within its identifier, all of it read by then.
unfoldable pub no_chunk_header : IoError → M Source WavError (Option ChunkHeader)
no_chunk_header unexpected_eof s = ok (none, record s { bytes = [] })
no_chunk_header invalid_input s = err (io invalid_input)
no_chunk_header write_zero s = err (io write_zero)

-- `ChunkHeader::read`
unfoldable pub read_chunk_header : M Source WavError (Option ChunkHeader)
read_chunk_header s = elim (read_exact 4 s) [
  | ok (chunk_id, s') ↦ read_chunk_size chunk_id s'
  | err e ↦ no_chunk_header e s
  | panic ↦ panic
]

unfoldable pub skip_chunk_padding : ℕ → M Source IoError (Unit {0})
skip_chunk_padding chunk_size =
    if chunk_size % 2 == 1 then (do padding ← read_exact 1; pure tt) else pure tt

-- `WavChunk::read`
unfoldable pub read_chunk : ChunkHeader → M Source WavError WavChunk
read_chunk header = do
  payload ← lift io (read_exact header.chunk_size)
  lift io (skip_chunk_padding header.chunk_size)
  pure (record { chunk_id = header.chunk_id; payload = payload })

unfoldable pub write_padding : WavChunk → M Sink IoError (Unit {0})
write_padding chunk = if length chunk.payload % 2 == 1 then write_all (0 ∷ []) else pure tt

unfoldable pub write_parts : WavChunk → M Sink IoError (Unit {0})
write_parts chunk = do
  write_all chunk.chunk_id
  write_all (le32 (length chunk.payload))
  write_all chunk.payload
  write_padding chunk

-- `WavChunk::write`
unfoldable pub write_chunk : WavChunk → M Sink IoError (Unit {0})
write_chunk chunk =
    if ltb (length chunk.payload) (2 ^ 32) then write_parts chunk else fail invalid_input

unfoldable pub serialized_size : WavChunk → ℕ
serialized_size chunk = 8 + length chunk.payload + length chunk.payload % 2

-- `for chunk in chunks { chunk.write(writer)?; }`, and the sum of their sizes.
unfoldable pub write_chunks : List WavChunk → M Sink IoError (Unit {0})
write_chunks [] = pure tt
write_chunks (c ∷ cs) = write_chunk c >> write_chunks cs

unfoldable pub serialized_sizes : List WavChunk → ℕ
serialized_sizes [] = 0
serialized_sizes (c ∷ cs) = serialized_size c + serialized_sizes cs

-- The bytes of a chunk in the file.
unfoldable pub padding : ℕ → List ℕ
padding n = if n % 2 == 1 then 0 ∷ [] else []

unfoldable pub chunk_bytes : WavChunk → List ℕ
chunk_bytes c = c.chunk_id ++ (le32 (length c.payload) ++ (c.payload ++ padding (length c.payload)))

unfoldable pub chunks_bytes : List WavChunk → List ℕ
chunks_bytes [] = []
chunks_bytes (c ∷ cs) = chunk_bytes c ++ chunks_bytes cs

-- The values of the Rust type that a RIFF size field can describe.
pub record IsWritable (c : WavChunk) : Type 0 where
  pub id_length : length c.chunk_id ≡ 4
  pub payload_fits : length c.payload < 2 ^ 32
