-- ===== src/Audio/Wav/Preamble/Ends.antt =====
-- src/audio/wav.rs: reading a preamble comes to an end, and it does not panic.
use rs.Prelude.Text.{same}
use rs.Prelude.{
  ℕ, ◌≤◌, ◌<◌, ◌≡◌, ◌≢◌, refl, List, length, Option, none, some, arith, Bool-cases, inl, inr,
}
use rs.Io.{Outcome, ok, err, panic, hoist}
use rs.Io.Loop.{again, iterate, iterate_ends, iterate_total, iterate_bounded}
use rs.Io.Octets.{Source}
use rs.Io.Pieces.{
  Shortens, Shortens-pure, Shortens-bind, Shortens-lift, Shortens-read_exact, Shortens-fail,
  Shortens-hoist, Shortens-if, Calm-if, Calm, Calm-pure, Calm-bind, Calm-lift, Calm-hoist,
  Calm-fail, Calm-read_exact,
}
use rs.Audio.Wav.{
  riff, wave, fmt, data_tag, WavError, io, invalid_magic, WavChunk, ChunkHeader, WavHeader,
  WavPreamble,
}
use rs.Audio.Wav.Chunk.Ends.{
  chunk_round-Shortens, Shortens-read_chunk_header, Calm-read_chunk_header, Shortens-read_chunk,
  Calm-read_chunk,
}
use rs.Audio.Wav.Header.Laws.{from_fmt_chunk_total}
use rs.Audio.Wav.Preamble.{
  expect_magic, read_riff_header, Progress, at_start, end_of_chunks, at_data, take_fmt, take_chunk,
  after_header, read_step, read_preamble,
}

Shortens-expect_magic : (tag : List ℕ) → Shortens (expect_magic tag) 4
unfolding expect_magic
Shortens-expect_magic tag =
    Shortens-bind _ (Shortens-lift io (Shortens-read_exact 4)) (λ buf.
      Shortens-if (same buf tag) (Shortens-pure tt) (Shortens-fail (invalid_magic buf tag) 0))

Calm-expect_magic : (tag : List ℕ) → Calm (expect_magic tag)
unfolding expect_magic
Calm-expect_magic tag =
    Calm-bind _ (Calm-lift io (Calm-read_exact 4))
      (λ buf. Calm-if (same buf tag) (Calm-pure tt) (Calm-fail (invalid_magic buf tag)))

Shortens-read_riff_header : Shortens read_riff_header 12
unfolding read_riff_header
Shortens-read_riff_header = Shortens-bind _ (Shortens-expect_magic riff) (λ (u : Unit {0}).
    Shortens-bind _ (Shortens-lift io (Shortens-read_exact 4)) (λ buf. Shortens-expect_magic wave))

Calm-read_riff_header : Calm read_riff_header
unfolding read_riff_header
Calm-read_riff_header = Calm-bind _ (Calm-expect_magic riff) (λ (u : Unit {0}).
    Calm-bind _ (Calm-lift io (Calm-read_exact 4)) (λ buf. Calm-expect_magic wave))

end_of_chunks_not_again :
    (h : Option WavHeader) (s : Source) (p : Progress) (s' : Source)
    → hoist (end_of_chunks h) s ≢ ok (again p, s')
unfolding end_of_chunks
end_of_chunks_not_again none s p s' = λ k. cc
end_of_chunks_not_again (some h) s p s' = λ k. cc

end_of_chunks_total : (h : Option WavHeader) → end_of_chunks h ≢ panic
unfolding end_of_chunks
end_of_chunks_total none = λ k. cc
end_of_chunks_total (some h) = λ k. cc

at_data_total : (p : Progress) (n : ℕ) (h : Option WavHeader) → at_data p n h ≢ panic
unfolding at_data
at_data_total p n none = λ k. cc
at_data_total p n (some h) = λ k. cc

take_fmt_total :
    (p : Progress) (c : WavChunk) (o : Outcome WavError WavHeader)
    → o ≢ panic
    → take_fmt p c o ≢ panic
unfolding take_fmt
take_fmt_total p c (ok h) q = λ k. cc
take_fmt_total p c (err e) q = λ k. cc
take_fmt_total p c panic q = absurd (q refl)

take_chunk_total : (p : Progress) (c : WavChunk) → take_chunk p c ≢ panic
unfolding take_chunk
take_chunk_total p c = elim (Bool-cases (same c.chunk_id fmt)) [
  | inl e ↦ rw e (take_fmt_total p c _ (from_fmt_chunk_total c))
  | inr e ↦ rw e (λ k. cc)
]

Shortens-after_header : (p : Progress) (o : Option ChunkHeader) → Shortens (after_header p o) 0
unfolding after_header
Shortens-after_header p none = Shortens-hoist (end_of_chunks p.header)
Shortens-after_header p (some h) =
    Shortens-if (same h.chunk_id data_tag) (Shortens-hoist (at_data p h.chunk_size p.header))
      (Shortens-bind _ (Shortens-read_chunk h) (λ c. Shortens-hoist (take_chunk p c)))

Calm-after_header : (p : Progress) (o : Option ChunkHeader) → Calm (after_header p o)
unfolding after_header
Calm-after_header p none = Calm-hoist _ (end_of_chunks_total p.header)
Calm-after_header p (some h) =
    Calm-if (same h.chunk_id data_tag) (Calm-hoist _ (at_data_total p h.chunk_size p.header))
      (Calm-bind _ (Calm-read_chunk h) (λ c. Calm-hoist _ (take_chunk_total p c)))

read_step-Shortens :
    (p : Progress) (s : Source) (p' : Progress) (s' : Source)
    → read_step p s ≡ ok (again p', s')
    → length s'.bytes < length s.bytes
unfolding read_step
read_step-Shortens p =
    chunk_round-Shortens (after_header p) (unfold after_header in end_of_chunks_not_again p.header)
      (λ h. Shortens-after_header p (some h))

Calm-read_step : (p : Progress) → Calm (read_step p)
unfolding read_step
Calm-read_step p = Calm-bind _ Calm-read_chunk_header (Calm-after_header p)

Shortens-read_step : (p : Progress) → Shortens (read_step p) 0
unfolding read_step
Shortens-read_step p = Shortens-bind _ Shortens-read_chunk_header (Shortens-after_header p)

module _ (fuel : ℕ) (s : Source) where
  abbrev after_riff :
      Outcome WavError (Unit {0} × Source) → Option (Outcome WavError (WavPreamble × Source))
  after_riff o = elim o [
    | ok (_, t) ↦ iterate read_step fuel at_start t
    | err e ↦ some (err e)
    | panic ↦ some panic
  ]

  pub read_preamble_ends : length s.bytes < fuel → read_preamble fuel s ≢ none
  unfolding read_preamble
  read_preamble_ends h = go (read_riff_header s) refl
    where
      go : (o : Outcome WavError (Unit {0} × Source)) → read_riff_header s ≡ o → after_riff o ≢ none
      go (ok (u, t)) e =
          iterate_ends read_step (λ r. length r.bytes) read_step-Shortens fuel at_start t
            (omega (arith, Shortens-read_riff_header.run s u t e))
      go (err x) e = λ k. cc
      go panic e = λ k. cc

  pub read_preamble_total : read_preamble fuel s ≢ some panic
  unfolding read_preamble
  read_preamble_total = go (read_riff_header s) refl
    where
      go :
          (o : Outcome WavError (Unit {0} × Source))
          → read_riff_header s ≡ o
          → after_riff o ≢ some panic
      go (ok (u, t)) e = iterate_total read_step (λ p. (Calm-read_step p).run) fuel at_start t
      go (err x) e = λ k. cc
      go panic e = absurd (Calm-read_riff_header.run s e)

  pub read_preamble-Shortens :
      (b : WavPreamble) (s' : Source)
      → read_preamble fuel s ≡ some (ok (b, s'))
      → length s'.bytes ≤ length s.bytes
  unfolding read_preamble
  read_preamble-Shortens b s' h = go (read_riff_header s) refl h
    where
      go :
          (o : Outcome WavError (Unit {0} × Source))
          → read_riff_header s ≡ o
          → after_riff o ≡ some (ok (b, s'))
          → length s'.bytes ≤ length s.bytes
      go (ok (u, t)) e k = omega (
        arith,
        Shortens-read_riff_header.run s u t e,
        iterate_bounded read_step (λ r. length r.bytes)
            (λ p r a r' q. omega (arith, (Shortens-read_step p).run r a r' q)) fuel at_start t b s'
            k,
      )
      go (err x) e k = absurd (cc)
      go panic e k = absurd (cc)
