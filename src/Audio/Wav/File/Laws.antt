-- ===== src/Audio/Wav/File/Laws.antt =====
-- src/audio/wav.rs: a file that was written is read back.
use rs.Prelude.{
  ℕ, ◌^◌, ◌<◌, ◌≡◌, refl, ap, List, [], ◌∷◌, ◌++◌, length, length-append, All, none, some, arith,
  append_assoc, append-nil,
}
use mathlib.Core.Path.{subst}
use rs.Io.{ok, unexpected_eof, ◌>>=◌, pure, lift}
use rs.Io.Loop.{again, done, Gives, Gives-again, Gives-done, after_loop}
use rs.Io.Octets.{vec, read_exact, take_octets, le32}
use rs.Io.Pieces.{source, Takes, Takes-pure, Takes-bind, Takes-last, Takes-lift, Takes-read_exact}
use rs.Audio.Wav.{data_tag, io, WavChunk, WavPreamble, Wav}
use rs.Audio.Wav.Chunk.{
  read_chunk_header, skip_chunk_padding, no_chunk_header, padding, chunk_bytes, chunks_bytes,
  IsWritable,
}
use rs.Audio.Wav.Chunk.Laws.{Takes-read_chunk_header, Takes-read_chunk, Takes-skip_chunk_padding}
use rs.Audio.Wav.Header.{into_wav_chunk, written_extension}
use rs.Audio.Wav.Header.Stored.{
  IsStored, stored_extension, from_fmt_chunk_unchecked_stored, written_extension-IsStored,
}
use rs.Audio.Wav.Preamble.Ends.{read_preamble_ends}
use rs.Audio.Wav.Preamble.Laws.{IsPlain, riff_bytes}
use rs.Audio.Wav.Preamble.Whole.{IsFaithful, preamble_bytes, read_preamble_back, with_extension}
use rs.Audio.Wav.File.{
  take_more, more_step, read_samples, assemble, read_rest, read_wav, data_chunk, fmt_chunk,
  riff_size, write_wav,
}
use rs.Audio.Wav.File.Ends.{more_chunks_end}
use rs.Audio.Wav.File.Written.{
  body_bytes, wav_bytes, write_wav-vec, fmt_payload_fits, data_payload_fits,
}

-- A file that can be stored: its header and extension say the same, the chunks before the samples
-- are not taken for `fmt ` or `data`, and the whole fits the size field.
pub record IsStorable (w : Wav) : Type 0 where
  pub before_fmt : All IsPlain w.chunks_before_fmt
  pub before_data : All IsPlain w.chunks_before_data
  pub after_data : All IsWritable w.chunks_after_data
  pub stored : IsStored w.header w.fmt_extension
  pub size_fits : riff_size w < 2 ^ 32

abbrev preamble_of : Wav → WavPreamble
preamble_of w = record {
  chunks_before_fmt = w.chunks_before_fmt;
  header = w.header;
  fmt_extension = w.fmt_extension;
  chunks_before_data = w.chunks_before_data;
  data_size = length w.payload;
}

IsFaithful-preamble_of : (w : Wav) → IsStorable w → IsFaithful (preamble_of w)
IsFaithful-preamble_of w h = record {
  before_fmt = h.before_fmt;
  before_data = h.before_data;
  header_back = from_fmt_chunk_unchecked_stored w.header w.fmt_extension h.stored;
  fmt_fits = unfold fmt_chunk in fmt_payload_fits w h.size_fits;
  size_fits = data_payload_fits w h.size_fits;
}

Takes-more :
    (cs : List WavChunk) (c : WavChunk)
    → IsWritable c
    → Takes (more_step cs) (chunk_bytes c) (again (cs ++ c ∷ []))
unfolding more_step take_more chunk_bytes
Takes-more cs c h =
    subst (λ bs. Takes (more_step cs) bs (again (cs ++ c ∷ [])))
      (append_assoc c.chunk_id (le32 (length c.payload)) (c.payload ++ padding (length c.payload)))
      (Takes-bind (take_more cs)
        (Takes-read_chunk_header c.chunk_id (length c.payload) h.id_length h.payload_fits)
        (Takes-last (λ d. pure (again (cs ++ d ∷ []))) (Takes-read_chunk c) (Takes-pure _)))

more_step_end :
    (cs : List WavChunk)
    → more_step cs (source [] unexpected_eof) ≡ ok (done cs, source [] unexpected_eof)
unfolding more_step take_more read_chunk_header read_exact take_octets no_chunk_header
more_step_end cs = refl

more_chunks :
    (cs more : List WavChunk)
    → All IsWritable cs
    → Gives more_step more
        (source (chunks_bytes cs) unexpected_eof)
        (ok (more ++ cs, source [] unexpected_eof))
unfolding chunks_bytes
more_chunks [] more h = rw (append-nil more) (Gives-done more_step more _ (more_step_end more))
more_chunks (c ∷ cs) more h =
    Gives-again more_step more _ ((Takes-more more c h.0).run (chunks_bytes cs) unexpected_eof) (
      subst
        (λ l.
          Gives more_step (more ++ c ∷ []) (source (chunks_bytes cs) unexpected_eof)
            (ok (l, source [] unexpected_eof)))
        (append_assoc more (c ∷ []) cs) (more_chunks cs (more ++ c ∷ []) h.1))

Takes-read_samples :
    (p : WavPreamble) (bs : List ℕ)
    → length bs ≡ p.data_size
    → Takes (read_samples p) (bs ++ padding p.data_size) bs
unfolding read_samples
Takes-read_samples p bs e =
    Takes-bind (λ b. lift io (skip_chunk_padding p.data_size) >>= λ (u : Unit {0}). pure b)
      (Takes-lift io (Takes-read_exact p.data_size bs e))
      (Takes-last (λ (u : Unit {0}). pure bs) (Takes-lift io (Takes-skip_chunk_padding p.data_size))
        (Takes-pure bs))

-- The file as the reader takes it apart.
body_split :
    (w : Wav)
    → body_bytes w
      ≡ preamble_bytes (preamble_of w)
        ++ ((w.payload ++ padding (length w.payload)) ++ chunks_bytes w.chunks_after_data)
unfolding body_bytes preamble_bytes chunk_bytes data_chunk fmt_chunk le32
body_split w =
    rw
      (
        append_assoc (chunks_bytes w.chunks_before_fmt)
            (chunk_bytes (into_wav_chunk w.header w.fmt_extension)
              ++ (chunks_bytes w.chunks_before_data ++ (data_tag ++ le32 (length w.payload))))
            ((w.payload ++ padding (length w.payload)) ++ chunks_bytes w.chunks_after_data),
        append_assoc (chunk_bytes (into_wav_chunk w.header w.fmt_extension))
            (chunks_bytes w.chunks_before_data ++ (data_tag ++ le32 (length w.payload)))
            ((w.payload ++ padding (length w.payload)) ++ chunks_bytes w.chunks_after_data),
        append_assoc (chunks_bytes w.chunks_before_data) (data_tag ++ le32 (length w.payload))
            ((w.payload ++ padding (length w.payload)) ++ chunks_bytes w.chunks_after_data),
      )
      refl

-- The file that is read: in the extensible format, the extension is the one made for the header.
abbrev pub reloaded : Wav → Wav
reloaded w = record w { fmt_extension = stored_extension w.header w.fmt_extension }

module _ (w : Wav) (h : IsStorable w) (fuel : ℕ) (enough : length (wav_bytes w) < fuel) where
  abbrev behind : List ℕ
  behind = (w.payload ++ padding (length w.payload)) ++ chunks_bytes w.chunks_after_data

  whole : wav_bytes w ≡ riff_bytes (riff_size w) ++ (preamble_bytes (preamble_of w) ++ behind)
  unfolding wav_bytes
  whole = rw (body_split w) refl

  behind_shorter : length (chunks_bytes w.chunks_after_data) < fuel
  behind_shorter = omega (
    arith,
    enough,
    ap length whole,
    length-append (riff_bytes (riff_size w)) (preamble_bytes (preamble_of w) ++ behind),
    length-append (preamble_bytes (preamble_of w)) behind,
    length-append (w.payload ++ padding (length w.payload)) (chunks_bytes w.chunks_after_data),
  )

  read_rest_back :
      read_rest fuel (with_extension (preamble_of w)) (source behind unexpected_eof)
      ≡ some (ok (reloaded w, source [] unexpected_eof))
  unfolding assemble read_rest written_extension after_loop
  read_rest_back =
      rw
        (
          read_rest,
          (Takes-read_samples (with_extension (preamble_of w)) w.payload refl).run
              (chunks_bytes w.chunks_after_data) unexpected_eof,
          (more_chunks w.chunks_after_data [] h.after_data).run fuel
              (more_chunks_end fuel [] _ behind_shorter),
          after_loop,
          ← written_extension-IsStored w.header w.fmt_extension h.stored,
        )
        refl

  -- For a WAV value with a header in the ranges of its types, some valid bits and an encoding that
  -- is not spelled `Other` of the code of another one; whose extension, where the `fmt ` chunk is
  -- extensible, is empty or the one made for the header, and whose encoding is not the extensible
  -- tag elsewhere; whose chunks have identifiers of four bytes, those before the samples other
  -- than `fmt ` and `data`; and whose file fits the size field: `write` puts the bytes of the file
  -- into an empty buffer, and `read`, with more rounds of fuel than there are bytes, takes all of
  -- them and returns the value, but with the extension made for the header where the `fmt ` chunk
  -- is extensible.
  pub read_wav-write_wav :
      (write_wav w vec ≡ ok (tt, record { written = wav_bytes w; room = none }))
      × (read_wav fuel (source (wav_bytes w) unexpected_eof)
          ≡ some (ok (reloaded w, source [] unexpected_eof)))
  unfolding read_wav after_loop read_rest
  read_wav-write_wav = (
    write_wav-vec w h.size_fits,
    rw
        (
          whole,
          read_preamble_back (preamble_of w) (IsFaithful-preamble_of w h) behind unexpected_eof
              (riff_size w) fuel (read_preamble_ends fuel _ (rw whole at enough)),
          after_loop,
        )
        read_rest_back,
  )
