-- ===== src/Audio/Wav/File/Ends.antt =====
-- src/audio/wav.rs: reading a whole file comes to an end, and it does not panic.
use rs.Prelude.{ℕ, ◌<◌, ◌≡◌, ◌≢◌, ◌⊎◌, inl, inr, refl, List, [], length, Option, none, some, arith}
use rs.Io.{Outcome, ok, err, panic, pure}
use rs.Io.Loop.{again, iterate, iterate_ends, iterate_total, after_loop}
use rs.Io.Octets.{Source}
use rs.Io.Pieces.{
  Shortens, Shortens-pure, Shortens-bind, Shortens-lift, Shortens-read_exact, Calm, Calm-pure,
  Calm-bind, Calm-lift, Calm-read_exact,
}
use rs.Audio.Wav.{WavError, io, WavChunk, ChunkHeader, WavPreamble, Wav}
use rs.Audio.Wav.Chunk.Ends.{
  chunk_round-Shortens, Calm-read_chunk_header, Shortens-read_chunk, Calm-read_chunk,
  Shortens-skip_chunk_padding, Calm-skip_chunk_padding,
}
use rs.Audio.Wav.Preamble.Ends.{read_preamble_ends, read_preamble_total, read_preamble-Shortens}
use rs.Audio.Wav.File.{take_more, more_step, read_samples, read_rest, read_wav}

take_more_stops :
    (cs : List WavChunk) (s : Source) (cs' : List WavChunk) (s' : Source)
    → take_more cs none s ≢ ok (again cs', s')
unfolding take_more
take_more_stops cs s cs' s' = λ k. cc

Shortens-take_more : (cs : List WavChunk) (h : ChunkHeader) → Shortens (take_more cs (some h)) 0
unfolding take_more
Shortens-take_more cs h = Shortens-bind _ (Shortens-read_chunk h) (λ c. Shortens-pure _)

Calm-take_more : (cs : List WavChunk) (o : Option ChunkHeader) → Calm (take_more cs o)
unfolding take_more
Calm-take_more cs none = Calm-pure _
Calm-take_more cs (some h) = Calm-bind _ (Calm-read_chunk h) (λ c. Calm-pure _)

more_step-Shortens :
    (cs : List WavChunk) (s : Source) (cs' : List WavChunk) (s' : Source)
    → more_step cs s ≡ ok (again cs', s')
    → length s'.bytes < length s.bytes
unfolding more_step
more_step-Shortens cs =
    chunk_round-Shortens (take_more cs) (take_more_stops cs) (Shortens-take_more cs)

Calm-more_step : (cs : List WavChunk) → Calm (more_step cs)
unfolding more_step
Calm-more_step cs = Calm-bind _ Calm-read_chunk_header (Calm-take_more cs)

Shortens-read_samples : (p : WavPreamble) → Shortens (read_samples p) 0
unfolding read_samples
Shortens-read_samples p = record {
  run = λ s a s' e.
      let less =
        (Shortens-bind _ (Shortens-lift io (Shortens-read_exact p.data_size)) (λ bs.
            Shortens-bind (λ (u : Unit {0}). pure bs)
              (Shortens-lift io (Shortens-skip_chunk_padding p.data_size))
              (λ u. Shortens-pure bs))).run
          s a s' e in
      omega arith;
}

Calm-read_samples : (p : WavPreamble) → Calm (read_samples p)
unfolding read_samples
Calm-read_samples p = Calm-bind _ (Calm-lift io (Calm-read_exact p.data_size)) (λ bs.
    Calm-bind (λ (u : Unit {0}). pure bs) (Calm-lift io (Calm-skip_chunk_padding p.data_size))
      (λ u. Calm-pure bs))

-- What follows a loop that ends, ends; likewise without a panic.
after_loop_ends :
    {A B : Type 0} (o : Option (Outcome WavError (A × Source)))
    (f : A → Source → Option (Outcome WavError (B × Source)))
    → o ≢ none
    → ((a : A) (s : Source) → o ≡ some (ok (a, s)) → f a s ≢ none)
    → after_loop o f ≢ none
unfolding after_loop
after_loop_ends none f h k = absurd (h refl)
after_loop_ends (some (ok (a, s))) f h k = k a s refl
after_loop_ends (some (err e)) f h k = λ q. cc
after_loop_ends (some panic) f h k = λ q. cc

after_loop_total :
    {A B : Type 0} (o : Option (Outcome WavError (A × Source)))
    (f : A → Source → Option (Outcome WavError (B × Source)))
    → o ≢ some panic
    → ((a : A) (s : Source) → f a s ≢ some panic)
    → after_loop o f ≢ some panic
unfolding after_loop
after_loop_total none f h k = λ q. cc
after_loop_total (some (ok (a, s))) f h k = k a s
after_loop_total (some (err e)) f h k = λ q. cc
after_loop_total (some panic) f h k = absurd (h refl)

read_rest_ends :
    (fuel : ℕ) (p : WavPreamble) (s : Source) → length s.bytes < fuel → read_rest fuel p s ≢ none
unfolding read_rest
read_rest_ends fuel p s h = go (read_samples p s) refl
  where
    go : (o : Outcome WavError (List ℕ × Source)) → read_samples p s ≡ o → read_rest fuel p s ≢ none
    go (ok (bs, t)) e =
        rw (read_rest, e)
          (after_loop_ends _ _
            (iterate_ends more_step (λ r. length r.bytes) more_step-Shortens fuel [] t
              (omega (arith, (Shortens-read_samples p).run s bs t e)))
            (λ cs r q. λ k. cc))
    go (err x) e = rw (read_rest, e) (λ k. cc)
    go panic e = rw (read_rest, e) (λ k. cc)

read_rest_total : (fuel : ℕ) (p : WavPreamble) (s : Source) → read_rest fuel p s ≢ some panic
unfolding read_rest
read_rest_total fuel p s = go (read_samples p s) refl
  where
    go :
        (o : Outcome WavError (List ℕ × Source))
        → read_samples p s ≡ o
        → read_rest fuel p s ≢ some panic
    go (ok (bs, t)) e =
        rw (read_rest, e)
          (after_loop_total _ _ (iterate_total more_step (λ cs. (Calm-more_step cs).run) fuel [] t)
            (λ cs r. λ k. cc))
    go (err x) e = rw (read_rest, e) (λ k. cc)
    go panic e = absurd ((Calm-read_samples p).run s e)

-- The loop over the chunks behind the samples ends.
pub more_chunks_end :
    (fuel : ℕ) (cs : List WavChunk) (s : Source)
    → length s.bytes < fuel
    → iterate more_step fuel cs s ≢ none
more_chunks_end = iterate_ends more_step (λ r. length r.bytes) more_step-Shortens

answered :
    {A : Type 0} (o : Option (Outcome WavError A))
    → o ≢ none
    → o ≢ some panic
    → ((a : A) × (o ≡ some (ok a))) ⊎ ((e : WavError) × (o ≡ some (err e)))
answered none h k = absurd (h refl)
answered (some (ok a)) h k = inl (a, refl)
answered (some (err e)) h k = inr (e, refl)
answered (some panic) h k = absurd (k refl)

-- With more rounds of fuel than there are bytes to read, `Wav::read` comes to an end on every
-- stream, whatever its bytes and the error that it ends with, and returns a value or an error; it
-- does not run out of fuel or panic.
pub read_wav_ends :
    (fuel : ℕ) (s : Source)
    → length s.bytes < fuel
    → ((r : Wav × Source) × (read_wav fuel s ≡ some (ok r)))
      ⊎ ((e : WavError) × (read_wav fuel s ≡ some (err e)))
unfolding read_wav
read_wav_ends fuel s h =
    answered (read_wav fuel s)
      (after_loop_ends _ _ (read_preamble_ends fuel s h)
        (λ p t e. read_rest_ends fuel p t (omega (arith, read_preamble-Shortens fuel s p t e))))
      (after_loop_total _ _ (read_preamble_total fuel s) (read_rest_total fuel))
