-- ===== src/Audio/Wav/Chunk/Laws.antt =====
-- src/audio/wav.rs: chunks are read back as they were written, reading one makes progress, and
-- neither reading nor writing panics.
use rs.Prelude.{
  ℕ, ◌%◌, ◌^◌, ◌<◌, ◌≡◌, refl, List, [], ◌∷◌, ◌++◌, length, length-append, lt→ltb, ◌==◌, some, All,
  arith, append_assoc, Bool-cases, inl, inr,
}
use rs.Io.{◌>>◌, pure, lift}
use rs.Io.Octets.{le32, from_le32-le32}
use rs.Io.Pieces.{
  Takes, Takes-pure, Takes-bind, Takes-last, Takes-lift, Takes-read_exact, Emits, Emits-write_all,
  Emits-nil, Emits-then,
}
use rs.Audio.Wav.{io, WavChunk}
use rs.Audio.Wav.Chunk.{
  u32_of, read_chunk_size, read_chunk_header, skip_chunk_padding, read_chunk, write_padding,
  write_parts, write_chunk, write_chunks, serialized_size, serialized_sizes, padding, chunk_bytes,
  chunks_bytes,
}

u32_of-le32 : (v : ℕ) → v < 2 ^ 32 → u32_of (le32 v) ≡ v
unfolding u32_of le32
u32_of-le32 v h = from_le32-le32 v h

pub length-le32 : (v : ℕ) → length (le32 v) ≡ 4
unfolding le32
length-le32 v = refl

pub Takes-read_chunk_header :
    (chunk_id : List ℕ) (size : ℕ)
    → length chunk_id ≡ 4
    → size < 2 ^ 32
    → Takes read_chunk_header
        (chunk_id ++ le32 size)
        (some (record { chunk_id = chunk_id; chunk_size = size }))
unfolding read_chunk_header read_chunk_size
Takes-read_chunk_header chunk_id size e h = record {
  run = λ rest ending.
      rw
        (
          append_assoc chunk_id (le32 size) rest,
          (Takes-read_exact 4 chunk_id e).run (le32 size ++ rest) ending,
          read_chunk_header,
        )
        (sized.run rest ending);
}
  where
    sized :
        Takes
          (read_chunk_size chunk_id)
          (le32 size)
          (some (record { chunk_id = chunk_id; chunk_size = size }))
    sized =
        Takes-last (λ buf. pure (some (record { chunk_id = chunk_id; chunk_size = u32_of buf })))
          (Takes-lift io (Takes-read_exact 4 (le32 size) (length-le32 size)))
          (rw (u32_of-le32 size h)
            (Takes-pure (some (record { chunk_id = chunk_id; chunk_size = size }))))

pub Takes-skip_chunk_padding : (n : ℕ) → Takes (skip_chunk_padding n) (padding n) tt
unfolding skip_chunk_padding padding
Takes-skip_chunk_padding n = elim (Bool-cases (n % 2 == 1)) [
  | inl e ↦
      rw e (Takes-last (λ (b : List ℕ). pure tt) (Takes-read_exact 1 (0 ∷ []) refl) (Takes-pure tt))
  | inr e ↦ rw e (Takes-pure tt)
]

pub Takes-read_chunk :
    (c : WavChunk)
    → Takes
        (read_chunk (record { chunk_id = c.chunk_id; chunk_size = length c.payload }))
        (c.payload ++ padding (length c.payload))
        c
unfolding read_chunk
Takes-read_chunk c =
    Takes-bind (λ bs. lift io (skip_chunk_padding (length c.payload)) >> pure (named bs))
      (Takes-lift io (Takes-read_exact (length c.payload) c.payload refl))
      (Takes-last (λ (u : Unit {0}). pure c)
        (Takes-lift io (Takes-skip_chunk_padding (length c.payload))) (Takes-pure c))
  where
    named : List ℕ → WavChunk
    named bs = record { chunk_id = c.chunk_id; payload = bs }

Emits-write_padding : (c : WavChunk) → Emits (write_padding c) (padding (length c.payload))
unfolding write_padding padding
Emits-write_padding c = elim (Bool-cases (length c.payload % 2 == 1)) [
  | inl e ↦ rw e (Emits-write_all (0 ∷ []))
  | inr e ↦ rw e Emits-nil
]

pub Emits-write_chunk :
    (c : WavChunk) → length c.payload < 2 ^ 32 → Emits (write_chunk c) (chunk_bytes c)
unfolding write_chunk write_parts chunk_bytes
Emits-write_chunk c h = rw (lt→ltb (length c.payload) (2 ^ 32) h) (
    Emits-then (Emits-write_all c.chunk_id) (
      Emits-then (Emits-write_all (le32 (length c.payload)))
        (Emits-then (Emits-write_all c.payload) (Emits-write_padding c))))

pub Emits-write_chunks :
    (cs : List WavChunk)
    → All (λ c. length c.payload < 2 ^ 32) cs
    → Emits (write_chunks cs) (chunks_bytes cs)
unfolding write_chunks chunks_bytes
Emits-write_chunks [] h = Emits-nil
Emits-write_chunks (c ∷ cs) h = Emits-then (Emits-write_chunk c h.0) (Emits-write_chunks cs h.1)

-- The sizes that `Wav::write` adds up are those of the bytes.
pub length-chunk_bytes :
    (c : WavChunk) → length c.chunk_id ≡ 4 → length (chunk_bytes c) ≡ serialized_size c
unfolding chunk_bytes serialized_size padding
length-chunk_bytes c e = ground (
  arith,
  length-append c.chunk_id (le32 (length c.payload) ++ (c.payload ++ padding (length c.payload))),
  length-append (le32 (length c.payload)) (c.payload ++ padding (length c.payload)),
  length-append c.payload (padding (length c.payload)),
  length-le32 (length c.payload),
)

pub length-chunks_bytes :
    (cs : List WavChunk)
    → All (λ c. length c.chunk_id ≡ 4) cs
    → length (chunks_bytes cs) ≡ serialized_sizes cs
unfolding chunks_bytes serialized_sizes
length-chunks_bytes [] h = refl
length-chunks_bytes (c ∷ cs) h = omega (
  arith,
  length-append (chunk_bytes c) (chunks_bytes cs),
  length-chunk_bytes c h.0,
  length-chunks_bytes cs h.1,
)
