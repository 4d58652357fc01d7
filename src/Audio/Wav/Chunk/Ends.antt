-- ===== src/Audio/Wav/Chunk/Ends.antt =====
-- src/audio/wav.rs: reading a chunk makes progress, and it does not panic.
use rs.Prelude.{
  ℕ, ◌+◌, ◌%◌, ◌≤◌, ◌<◌, ◌≡◌, ◌≢◌, refl, List, [], length, ◌==◌, Option, none, some, arith,
  Bool-cases, inl, inr,
}
use rs.Io.{
  M, Outcome, ok, err, panic, IoError, unexpected_eof, invalid_input, write_zero, ◌>>=◌, pure,
}
use rs.Io.Loop.{Turn, again}
use rs.Io.Octets.{Source, read_exact, read_exact_total}
use rs.Io.Pieces.{
  Shortens, Shortens-pure, Shortens-bind, Shortens-lift, Shortens-read_exact, Calm, Calm-pure,
  Calm-bind, Calm-lift, Calm-read_exact,
}
use rs.Audio.Wav.{WavError, io, ChunkHeader}
use rs.Audio.Wav.Chunk.{
  u32_of, read_chunk_size, no_chunk_header, read_chunk_header, skip_chunk_padding, read_chunk,
}

no_chunk_header_not_some :
    (e : IoError) (s : Source) {h : ChunkHeader} {s' : Source}
    → no_chunk_header e s ≢ ok (some h, s')
unfolding no_chunk_header
no_chunk_header_not_some unexpected_eof s = λ k. cc
no_chunk_header_not_some invalid_input s = λ k. cc
no_chunk_header_not_some write_zero s = λ k. cc

no_chunk_header_total : (e : IoError) (s : Source) → no_chunk_header e s ≢ panic
unfolding no_chunk_header
no_chunk_header_total unexpected_eof s = λ k. cc
no_chunk_header_total invalid_input s = λ k. cc
no_chunk_header_total write_zero s = λ k. cc

Shortens-read_chunk_size : (id : List ℕ) → Shortens (read_chunk_size id) 4
unfolding read_chunk_size
Shortens-read_chunk_size id =
    Shortens-bind (λ buf. pure (some (record { chunk_id = id; chunk_size = u32_of buf })))
      (Shortens-lift io (Shortens-read_exact 4)) (λ buf. Shortens-pure _)

-- A header that is there takes eight bytes.
pub read_chunk_header-some :
    (s : Source) {h : ChunkHeader} {s' : Source}
    → read_chunk_header s ≡ ok (some h, s')
    → length s'.bytes + 8 ≤ length s.bytes
unfolding read_chunk_header
read_chunk_header-some s {h} {s'} e = go (read_exact 4 s) refl e
  where
    go :
        (o : Outcome IoError (List ℕ × Source))
        → read_exact 4 s ≡ o
        → elim o as (λ x. Outcome WavError (Option ChunkHeader × Source)) [
          | ok (id, t) ↦ read_chunk_size id t
          | err x ↦ no_chunk_header x s
          | panic ↦ panic
        ]
          ≡ ok (some h, s')
        → length s'.bytes + 8 ≤ length s.bytes
    go (ok (id, t)) p q = omega (
      arith,
      (Shortens-read_exact 4).run s id t p,
      (Shortens-read_chunk_size id).run t (some h) s' q,
    )
    go (err x) p q = absurd (no_chunk_header_not_some x s q)
    go panic p q = absurd (cc)

pub Calm-read_chunk_header : Calm read_chunk_header
unfolding read_chunk_header read_chunk_size
Calm-read_chunk_header = record { run = λ s. go s (read_exact 4 s) refl }
  where
    go :
        (s : Source) (o : Outcome IoError (List ℕ × Source))
        → read_exact 4 s ≡ o
        → read_chunk_header s ≢ panic
    go s (ok (id, t)) p =
        rw (read_chunk_header, p)
          ((Calm-bind (λ buf. pure (some (record { chunk_id = id; chunk_size = u32_of buf })))
              (Calm-lift io (Calm-read_exact 4)) (λ buf. Calm-pure _)).run
            t)
    go s (err x) p = rw (read_chunk_header, p) (no_chunk_header_total x s)
    go s panic p = absurd (read_exact_total 4 s p)

pub Shortens-skip_chunk_padding : (n : ℕ) → Shortens (skip_chunk_padding n) 0
unfolding skip_chunk_padding
Shortens-skip_chunk_padding n = elim (Bool-cases (n % 2 == 1)) [
  | inl e ↦ rw e (record {
    run = λ s a s' h.
        let less =
          (Shortens-bind (λ (b : List ℕ). pure {E = IoError} tt) (Shortens-read_exact 1)
              (λ b. Shortens-pure tt)).run
            s a s' h in
        omega arith;
  })
  | inr e ↦ rw e (Shortens-pure tt)
]

pub Calm-skip_chunk_padding : (n : ℕ) → Calm (skip_chunk_padding n)
unfolding skip_chunk_padding
Calm-skip_chunk_padding n = elim (Bool-cases (n % 2 == 1)) [
  | inl e ↦ rw e (Calm-bind (λ (b : List ℕ). pure tt) (Calm-read_exact 1) (λ b. Calm-pure tt))
  | inr e ↦ rw e (Calm-pure tt)
]

module _ (h : ChunkHeader) where
  pub Shortens-read_chunk : Shortens (read_chunk h) 0
  unfolding read_chunk
  Shortens-read_chunk = record {
    run = λ s c s' e.
        let less =
          (Shortens-bind _ (Shortens-lift io (Shortens-read_exact h.chunk_size)) (λ bs.
              Shortens-bind
                (λ (u : Unit {0}). pure (record { chunk_id = h.chunk_id; payload = bs }))
                (Shortens-lift io (Shortens-skip_chunk_padding h.chunk_size))
                (λ u. Shortens-pure _))).run
            s c s' e in
        omega arith;
  }

  pub Calm-read_chunk : Calm (read_chunk h)
  unfolding read_chunk
  Calm-read_chunk = Calm-bind _ (Calm-lift io (Calm-read_exact h.chunk_size)) (λ bs.
      Calm-bind (λ (u : Unit {0}). pure (record { chunk_id = h.chunk_id; payload = bs }))
        (Calm-lift io (Calm-skip_chunk_padding h.chunk_size)) (λ u. Calm-pure _))

-- A round that reads a chunk header first, and stops where there is none.
pub chunk_round-Shortens :
    {P B : Type 0} (f : Option ChunkHeader → M Source WavError (Turn P B))
    → ((s : Source) (p' : P) (s' : Source) → f none s ≢ ok (again p', s'))
    → ((h : ChunkHeader) → Shortens (f (some h)) 0)
    → (s : Source) (p' : P) (s' : Source) → (read_chunk_header >>= f) s ≡ ok (again p', s')
    → length s'.bytes < length s.bytes
chunk_round-Shortens {P} {B} f stops goes s p' s' e = go (read_chunk_header s) refl e
  where
    go :
        (o : Outcome WavError (Option ChunkHeader × Source))
        → read_chunk_header s ≡ o
        → elim o as (λ x. Outcome WavError (Turn P B × Source)) [
          | ok (h, t) ↦ f h t
          | err x ↦ err x
          | panic ↦ panic
        ]
          ≡ ok (again p', s')
        → length s'.bytes < length s.bytes
    go (ok (none, t)) q k = absurd (stops t p' s' k)
    go (ok (some h, t)) q k =
        omega (arith, read_chunk_header-some s q, (goes h).run t (again p') s' k)
    go (err x) q k = absurd (cc)
    go panic q k = absurd (cc)

no_chunk_header-Shortens :
    (e : IoError) (s : Source) (o : Option ChunkHeader) (s' : Source)
    → no_chunk_header e s ≡ ok (o, s')
    → length s'.bytes ≤ length s.bytes
unfolding no_chunk_header
no_chunk_header-Shortens unexpected_eof s o s' e =
    let same : record s { bytes = [] } ≡ s' = cc in rw (← same) (omega arith)
no_chunk_header-Shortens invalid_input s o s' e = absurd (cc)
no_chunk_header-Shortens write_zero s o s' e = absurd (cc)

pub Shortens-read_chunk_header : Shortens read_chunk_header 0
unfolding read_chunk_header
Shortens-read_chunk_header = record { run = λ s a s' e. go s a s' (read_exact 4 s) refl e }
  where
    go :
        (s : Source) (a : Option ChunkHeader) (s' : Source) (o : Outcome IoError (List ℕ × Source))
        → read_exact 4 s ≡ o
        → elim o as (λ x. Outcome WavError (Option ChunkHeader × Source)) [
          | ok (id, t) ↦ read_chunk_size id t
          | err x ↦ no_chunk_header x s
          | panic ↦ panic
        ]
          ≡ ok (a, s')
        → length s'.bytes + 0 ≤ length s.bytes
    go s a s' (ok (id, t)) p q =
        omega
          (arith, (Shortens-read_exact 4).run s id t p, (Shortens-read_chunk_size id).run t a s' q)
    go s a s' (err x) p q = omega (arith, no_chunk_header-Shortens x s a s' q)
    go s a s' panic p q = absurd (cc)
