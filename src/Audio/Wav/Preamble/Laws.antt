-- ===== src/Audio/Wav/Preamble/Laws.antt =====
-- src/audio/wav.rs: a preamble is read back chunk by chunk.
use rs.Prelude.Text.{same}
use rs.Prelude.{
  ℕ, ◌^◌, ◌<◌, ◌≡◌, refl, ap, true, false, List, ◌++◌, length, drop, if◌then◌else◌, some,
  append_assoc,
}
use mathlib.Core.Path.{subst}
use rs.Io.{ok, ◌>>=◌, pure, lift, hoist, fail}
use rs.Io.Loop.{Turn, again, done}
use rs.Io.Octets.{read_exact, le32}
use rs.Io.Pieces.{
  Takes, Takes-pure, Takes-hoist, Takes-bind, Takes-last, Takes-lift, Takes-read_exact, Emits,
  Emits-write_all, Emits-then,
}
use rs.Audio.Wav.{
  riff, wave, fmt, data_tag, io, invalid_magic, WavChunk, ChunkHeader, WavHeader, WavPreamble,
}
use rs.Audio.Wav.Chunk.{chunk_bytes, padding, IsWritable}
use rs.Audio.Wav.Chunk.Laws.{Takes-read_chunk_header, Takes-read_chunk, length-le32}
use rs.Audio.Wav.Header.{from_fmt_chunk_unchecked}
use rs.Audio.Wav.Preamble.{
  expect_magic, read_riff_header, write_riff_header, Progress, at_data, push_chunk, take_fmt,
  take_chunk, after_header, read_step,
}

-- A chunk that the reader keeps as it is.
pub record IsPlain (c : WavChunk) : Type 0 where
  pub writable : IsWritable c
  pub not_fmt : same c.chunk_id fmt ≡ false
  pub not_data : same c.chunk_id data_tag ≡ false

unfoldable pub riff_bytes : ℕ → List ℕ
riff_bytes n = riff ++ (le32 n ++ wave)

pub Emits-write_riff_header : (n : ℕ) → Emits (write_riff_header n) (riff_bytes n)
unfolding write_riff_header riff_bytes
Emits-write_riff_header n =
    Emits-then (Emits-write_all riff) (Emits-then (Emits-write_all (le32 n)) (Emits-write_all wave))

Takes-expect_magic :
    (tag : List ℕ) → length tag ≡ 4 → same tag tag ≡ true → Takes (expect_magic tag) tag tt
unfolding expect_magic
Takes-expect_magic tag len e =
    Takes-last (λ buf. if same buf tag then pure tt else fail (invalid_magic buf tag))
      (Takes-lift io (Takes-read_exact 4 tag len)) (rw e (Takes-pure tt))

pub Takes-read_riff_header : (n : ℕ) → Takes read_riff_header (riff_bytes n) tt
unfolding read_riff_header riff_bytes
Takes-read_riff_header n =
    Takes-bind (λ (u : Unit {0}). lift io (read_exact 4) >>= λ buf. expect_magic wave)
      (Takes-expect_magic riff refl (unfold same in refl))
      (Takes-bind (λ buf. expect_magic wave)
        (Takes-lift io (Takes-read_exact 4 (le32 n) (length-le32 n)))
        (Takes-expect_magic wave refl (unfold same in refl)))

module _ (p : Progress) where
  -- One round on a chunk that is not `data`.
  Takes-chunk :
      (c : WavChunk) {t : Turn Progress WavPreamble}
      → IsWritable c
      → same c.chunk_id data_tag ≡ false
      → take_chunk p c ≡ ok t
      → Takes (read_step p) (chunk_bytes c) t
  unfolding read_step chunk_bytes
  Takes-chunk c {t} w other e =
      subst (λ bs. Takes (read_step p) bs t)
        (append_assoc c.chunk_id (le32 (length c.payload))
          (c.payload ++ padding (length c.payload)))
        (Takes-bind (after_header p)
          (Takes-read_chunk_header c.chunk_id (length c.payload) w.id_length w.payload_fits) inside)
    where
      header : ChunkHeader
      header = record { chunk_id = c.chunk_id; chunk_size = length c.payload }

      inside : Takes (after_header p (some header)) (c.payload ++ padding (length c.payload)) t
      inside =
          unfold after_header in
          rw other (Takes-last (λ d. hoist (take_chunk p d)) (Takes-read_chunk c) (Takes-hoist _ e))

  pub Takes-plain :
      (c : WavChunk)
      → IsPlain c
      → Takes (read_step p) (chunk_bytes c) (again (push_chunk p c p.header))
  Takes-plain c h = Takes-chunk c h.writable h.not_data (unfold take_chunk in rw h.not_fmt refl)

  pub Takes-fmt :
      (c : WavChunk) {h : WavHeader}
      → IsWritable c
      → c.chunk_id ≡ fmt
      → from_fmt_chunk_unchecked c ≡ ok h
      → Takes
          (read_step p)
          (chunk_bytes c)
          (again (record p { fmt_extension = drop 16 c.payload; header = some h }))
  unfolding take_chunk take_fmt
  Takes-fmt c w named e =
      Takes-chunk c w (rw named (unfold same in refl))
        (rw (ap (λ i. same i fmt) named, e) (unfold same in refl))

  pub Takes-data :
      (n : ℕ) {h : WavHeader}
      → n < 2 ^ 32
      → p.header ≡ some h
      → Takes (read_step p) (data_tag ++ le32 n) (
          done (record {
            chunks_before_fmt = p.chunks_before_fmt;
            header = h;
            fmt_extension = p.fmt_extension;
            chunks_before_data = p.chunks_before_data;
            data_size = n;
          }))
  unfolding read_step
  Takes-data n {h} fits e =
      Takes-last (after_header p) (Takes-read_chunk_header data_tag n refl fits)
        (unfold after_header same in Takes-hoist _ (rw e (unfold at_data in refl)))
