-- ===== src/Audio/Wav/Preamble/Whole.antt =====
-- src/audio/wav.rs: a whole preamble is read back.
use rs.Prelude.{
  ℕ, ◌^◌, ◌<◌, ◌≡◌, ◌≢◌, refl, List, [], ◌∷◌, ◌++◌, length, All, none, some, append_assoc,
  append-nil,
}
use rs.Io.{Outcome, ok, IoError}
use rs.Io.Loop.{again, Gives, Gives-again, Gives-done}
use rs.Io.Octets.{Source, le32}
use rs.Io.Pieces.{source, Takes}
use rs.Audio.Wav.{data_tag, WavError, WavChunk, WavHeader, WavPreamble}
use rs.Audio.Wav.Chunk.{chunk_bytes, chunks_bytes, IsWritable}
use rs.Audio.Wav.Header.{from_fmt_chunk_unchecked, into_wav_chunk, written_extension}
use rs.Audio.Wav.Header.Laws.{drop-payload}
use rs.Audio.Wav.Preamble.{Progress, at_start, push_chunk, read_step, read_preamble}
use rs.Audio.Wav.Preamble.Laws.{
  IsPlain, riff_bytes, Takes-read_riff_header, Takes-plain, Takes-fmt, Takes-data,
}

module _ (rest : List ℕ) (ending : IoError) (o : Outcome WavError (WavPreamble × Source)) where
  step_over :
      {p p' : Progress} {bs more : List ℕ}
      → Takes (read_step p) bs (again p')
      → Gives read_step p' (source more ending) o
      → Gives read_step p (source (bs ++ more) ending) o
  step_over {p} {bs} {more} t g =
      Gives-again read_step p (source (bs ++ more) ending) (t.run more ending) g

  chunks_before :
      (cs more : List WavChunk) (d : List WavChunk) (x : List ℕ)
      → All IsPlain cs
      → Gives read_step
          (record {
            chunks_before_fmt = more ++ cs;
            chunks_before_data = d;
            header = none;
            fmt_extension = x;
          })
          (source rest ending)
          o
      → Gives read_step
          (record {
            chunks_before_fmt = more;
            chunks_before_data = d;
            header = none;
            fmt_extension = x;
          })
          (source (chunks_bytes cs ++ rest) ending)
          o
  unfolding chunks_bytes push_chunk
  chunks_before [] more d x h g = rw (append-nil more) at g
  chunks_before (c ∷ cs) more d x h g = rw (append_assoc (chunk_bytes c) (chunks_bytes cs) rest) (
      step_over (Takes-plain _ c h.0)
        (chunks_before cs (more ++ c ∷ []) d x h.1 (rw (append_assoc more (c ∷ []) cs) g)))

  chunks_between :
      (cs more : List WavChunk) (b : List WavChunk) (header : WavHeader) (x : List ℕ)
      → All IsPlain cs
      → Gives read_step
          (record {
            chunks_before_fmt = b;
            chunks_before_data = more ++ cs;
            header = some header;
            fmt_extension = x;
          })
          (source rest ending)
          o
      → Gives read_step
          (record {
            chunks_before_fmt = b;
            chunks_before_data = more;
            header = some header;
            fmt_extension = x;
          })
          (source (chunks_bytes cs ++ rest) ending)
          o
  unfolding chunks_bytes push_chunk
  chunks_between [] more b header x h g = rw (append-nil more) at g
  chunks_between (c ∷ cs) more b header x h g =
      rw (append_assoc (chunk_bytes c) (chunks_bytes cs) rest) (
        step_over (Takes-plain _ c h.0) (
          chunks_between cs (more ++ c ∷ []) b header x h.1 (rw (append_assoc more (c ∷ []) cs) g)))

-- A preamble whose bytes mean it: its header is read back from its chunk, its other chunks are
-- not taken for `fmt ` or `data`, and the sizes fit their fields.
pub record IsFaithful (p : WavPreamble) : Type 0 where
  pub before_fmt : All IsPlain p.chunks_before_fmt
  pub before_data : All IsPlain p.chunks_before_data
  pub header_back : from_fmt_chunk_unchecked (into_wav_chunk p.header p.fmt_extension) ≡ ok p.header
  pub fmt_fits : length (into_wav_chunk p.header p.fmt_extension).payload < 2 ^ 32
  pub size_fits : p.data_size < 2 ^ 32

unfoldable pub preamble_bytes : WavPreamble → List ℕ
preamble_bytes p =
    chunks_bytes p.chunks_before_fmt
    ++ (chunk_bytes (into_wav_chunk p.header p.fmt_extension)
        ++ (chunks_bytes p.chunks_before_data ++ (data_tag ++ le32 p.data_size)))

-- The preamble that is read: the canonical extension stands in it where the writer made one.
abbrev pub with_extension : WavPreamble → WavPreamble
with_extension p = record p { fmt_extension = written_extension p.header p.fmt_extension }

IsWritable-into_wav_chunk :
    (h : WavHeader) (x : List ℕ)
    → length (into_wav_chunk h x).payload < 2 ^ 32
    → IsWritable (into_wav_chunk h x)
IsWritable-into_wav_chunk h x fits = record {
  id_length = unfold into_wav_chunk in refl;
  payload_fits = fits;
}

module _ (p : WavPreamble) (h : IsFaithful p) (rest : List ℕ) (ending : IoError) where
  abbrev answer : Outcome WavError (WavPreamble × Source)
  answer = ok (with_extension p, source rest ending)

  from_data :
      Gives read_step
        (record {
          chunks_before_fmt = p.chunks_before_fmt;
          chunks_before_data = p.chunks_before_data;
          header = some p.header;
          fmt_extension = written_extension p.header p.fmt_extension;
        })
        (source ((data_tag ++ le32 p.data_size) ++ rest) ending)
        answer
  from_data = Gives-done read_step _ _ ((Takes-data _ p.data_size h.size_fits refl).run rest ending)

  from_fmt :
      Gives read_step
        (record {
          chunks_before_fmt = p.chunks_before_fmt;
          chunks_before_data = [];
          header = none;
          fmt_extension = [];
        })
        (source
          (chunk_bytes (into_wav_chunk p.header p.fmt_extension)
            ++ (chunks_bytes p.chunks_before_data ++ ((data_tag ++ le32 p.data_size) ++ rest)))
          ending)
        answer
  from_fmt =
      step_over [] ending answer
        (Takes-fmt _ (into_wav_chunk p.header p.fmt_extension)
          (IsWritable-into_wav_chunk p.header p.fmt_extension h.fmt_fits)
          (unfold into_wav_chunk in refl) h.header_back)
        (chunks_between _ ending answer p.chunks_before_data [] p.chunks_before_fmt p.header _
          h.before_data (rw (drop-payload p.header p.fmt_extension) from_data))

  from_start : Gives read_step at_start (source (preamble_bytes p ++ rest) ending) answer
  unfolding preamble_bytes
  from_start =
      rw
        (
          append_assoc (chunks_bytes p.chunks_before_fmt)
              (chunk_bytes (into_wav_chunk p.header p.fmt_extension)
                ++ (chunks_bytes p.chunks_before_data ++ (data_tag ++ le32 p.data_size)))
              rest,
          append_assoc (chunk_bytes (into_wav_chunk p.header p.fmt_extension))
              (chunks_bytes p.chunks_before_data ++ (data_tag ++ le32 p.data_size)) rest,
          append_assoc (chunks_bytes p.chunks_before_data) (data_tag ++ le32 p.data_size) rest,
        )
        (chunks_before _ ending answer p.chunks_before_fmt [] [] [] h.before_fmt from_fmt)

  pub read_preamble_back :
      (size fuel : ℕ)
      → read_preamble fuel (source (riff_bytes size ++ (preamble_bytes p ++ rest)) ending) ≢ none
      → read_preamble fuel (source (riff_bytes size ++ (preamble_bytes p ++ rest)) ending)
        ≡ some answer
  unfolding read_preamble
  read_preamble_back size fuel =
      rw ((Takes-read_riff_header size).run (preamble_bytes p ++ rest) ending, read_preamble)
        (from_start.run fuel)
