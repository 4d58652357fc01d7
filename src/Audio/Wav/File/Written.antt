-- ===== src/Audio/Wav/File/Written.antt =====
-- src/audio/wav.rs: the bytes of a whole file, and the sizes that it declares.
use rs.Prelude.{
  ℕ, ◌+◌, ◌^◌, ◌<◌, ◌≡◌, refl, ◌∙◌, List, [], ◌∷◌, ◌++◌, length, length-append, All, ltb, ltb→lt,
  lt→ltb, if◌then◌else◌, none, arith, Bool-cases, inl, inr,
}
use rs.Io.{ok, err, invalid_input}
use rs.Io.Octets.{vec, write_all, le32}
use rs.Io.Pieces.{Emits, Emits-then}
use rs.Audio.Wav.{riff, wave, WavChunk, Wav}
use rs.Audio.Wav.Chunk.{serialized_size, serialized_sizes, chunk_bytes, chunks_bytes}
use rs.Audio.Wav.Chunk.Laws.{
  length-le32, Emits-write_chunk, Emits-write_chunks, length-chunk_bytes, length-chunks_bytes,
}
use rs.Audio.Wav.Header.{into_wav_chunk}
use rs.Audio.Wav.Preamble.Laws.{riff_bytes, Emits-write_riff_header}
use rs.Audio.Wav.File.{data_chunk, fmt_chunk, riff_size, write_all_chunks, write_wav}

-- What the file holds behind its first twelve bytes.
unfoldable pub body_bytes : Wav → List ℕ
body_bytes w =
    chunks_bytes w.chunks_before_fmt
    ++ (chunk_bytes (fmt_chunk w)
        ++ (chunks_bytes w.chunks_before_data
            ++ (chunk_bytes (data_chunk w) ++ chunks_bytes w.chunks_after_data)))

unfoldable pub wav_bytes : Wav → List ℕ
wav_bytes w = riff_bytes (riff_size w) ++ body_bytes w

abbrev pub HasIds : List WavChunk → Type 0
HasIds cs = All (λ c. length c.chunk_id ≡ 4) cs

each_fits :
    (cs : List WavChunk) → serialized_sizes cs < 2 ^ 32 → All (λ c. length c.payload < 2 ^ 32) cs
unfolding serialized_sizes serialized_size
each_fits [] h = tt
each_fits (c ∷ cs) h = (omega arith, each_fits cs (omega arith))

pub fmt_payload_fits : (w : Wav) → riff_size w < 2 ^ 32 → length (fmt_chunk w).payload < 2 ^ 32
unfolding riff_size serialized_size
fmt_payload_fits w h = omega arith

pub data_payload_fits : (w : Wav) → riff_size w < 2 ^ 32 → length w.payload < 2 ^ 32
unfolding riff_size serialized_size data_chunk
data_payload_fits w h = omega arith

Emits-write_all_chunks : (w : Wav) → riff_size w < 2 ^ 32 → Emits (write_all_chunks w) (wav_bytes w)
unfolding write_all_chunks wav_bytes body_bytes
Emits-write_all_chunks w h = Emits-then (Emits-write_riff_header (riff_size w)) (
    Emits-then (Emits-write_chunks w.chunks_before_fmt (each_fits _ before)) (
      Emits-then (Emits-write_chunk (fmt_chunk w) (fmt_payload_fits w h)) (
        Emits-then (Emits-write_chunks w.chunks_before_data (each_fits _ between)) (
          Emits-then (Emits-write_chunk (data_chunk w) samples)
            (Emits-write_chunks w.chunks_after_data (each_fits _ after))))))
  where
    before : serialized_sizes w.chunks_before_fmt < 2 ^ 32
    before = unfold riff_size in omega arith

    between : serialized_sizes w.chunks_before_data < 2 ^ 32
    between = unfold riff_size in omega arith

    after : serialized_sizes w.chunks_after_data < 2 ^ 32
    after = unfold riff_size in omega arith

    samples : length (data_chunk w).payload < 2 ^ 32
    samples = unfold data_chunk in data_payload_fits w h

length-riff_bytes : (n : ℕ) → length (riff_bytes n) ≡ 12
unfolding riff_bytes
length-riff_bytes n =
    omega (arith, length-append riff (le32 n ++ wave), length-append (le32 n) wave, length-le32 n)

pub length-body_bytes :
    (w : Wav)
    → HasIds w.chunks_before_fmt
    → HasIds w.chunks_before_data
    → HasIds w.chunks_after_data
    → 4 + length (body_bytes w) ≡ riff_size w
unfolding body_bytes riff_size
length-body_bytes w b d a = omega (
  arith,
  length-append (chunks_bytes w.chunks_before_fmt) (
      chunk_bytes (fmt_chunk w)
      ++ (chunks_bytes w.chunks_before_data
          ++ (chunk_bytes (data_chunk w) ++ chunks_bytes w.chunks_after_data))),
  length-append (chunk_bytes (fmt_chunk w)) (
      chunks_bytes w.chunks_before_data
      ++ (chunk_bytes (data_chunk w) ++ chunks_bytes w.chunks_after_data)),
  length-append (chunks_bytes w.chunks_before_data)
      (chunk_bytes (data_chunk w) ++ chunks_bytes w.chunks_after_data),
  length-append (chunk_bytes (data_chunk w)) (chunks_bytes w.chunks_after_data),
  length-chunks_bytes w.chunks_before_fmt b,
  length-chunk_bytes (fmt_chunk w) (unfold fmt_chunk into_wav_chunk in refl),
  length-chunks_bytes w.chunks_before_data d,
  length-chunk_bytes (data_chunk w) (unfold data_chunk in refl),
  length-chunks_bytes w.chunks_after_data a,
)

pub write_wav-vec :
    (w : Wav)
    → riff_size w < 2 ^ 32
    → write_wav w vec ≡ ok (tt, record { written = wav_bytes w; room = none })
unfolding write_wav
write_wav-vec w h =
    rw (lt→ltb (riff_size w) (2 ^ 32) h)
      ((Emits-write_all_chunks w h).run vec ∙ (unfold write_all in refl))

-- For a WAV value whose chunks have identifiers of four bytes: if its RIFF size is below 2 ^ 32,
-- `write` puts into an empty buffer `RIFF`, this size, `WAVE` and the body, and otherwise it fails
-- with the error for invalid input; and the RIFF size is the number of bytes of `WAVE` and the
-- body.
pub write_wav-riff_size :
    (w : Wav)
    → HasIds w.chunks_before_fmt
    → HasIds w.chunks_before_data
    → HasIds w.chunks_after_data
    → (write_wav w vec ≡ (
        if ltb (riff_size w) (2 ^ 32)
        then ok (
          tt,
          record { written = riff ++ (le32 (riff_size w) ++ (wave ++ body_bytes w)); room = none },
        )
        else err invalid_input))
      × (length (wave ++ body_bytes w) ≡ riff_size w)
unfolding write_wav wav_bytes riff_bytes le32 body_bytes
write_wav-riff_size w b d a = elim (Bool-cases (ltb (riff_size w) (2 ^ 32))) [
  | inl e ↦ (
    rw e (rw e at (write_wav-vec w (ltb→lt (riff_size w) (2 ^ 32) e))),
    omega (arith, length-body_bytes w b d a),
  )
  | inr e ↦ (rw e refl, omega (arith, length-body_bytes w b d a))
]
