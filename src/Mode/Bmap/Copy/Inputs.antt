-- ===== src/Mode/Bmap/Copy/Inputs.antt =====
-- The two inputs of src/mode/flash/bmap/copy.rs, `Stream` and `Seekable`, as sources of an image.
use omnect_os_init.Base.{
  ◌≡◌, refl, sym, ap, ◌∙◌, ℕ, zero, suc, List, [], ◌∷◌, Result, ok, err, length, ◌==◌, min, ◌+◌,
  ◌-◌, ◌≤◌, arith, Bool-cases, inl, inr,
}
use omnect_os_init.Base.Exec.{
  Ensures, Ensures-weaken, continue, behind, with_error, map_error, on_first, on_second, ◌>>=◌,
}
use omnect_os_init.Base.Text.{Text}
use omnect_os_init.Error.{IoError}
use omnect_os_init.Mode.Bmap.Copy.{
  Reader, copy_buffer_size, chunk_len, read_error, hand, pass_loop, pass_through, distance,
  moved_on, sought, counted, no_sink, read_over, seek_over, skip_stream, skip_seekable, stream,
  seekable,
}
use omnect_os_init.Mode.Bmap.Copy.Image.{window, GivesImage}

distance-ok :
    (position target len : ℕ) → distance position target ≡ ok len → position + len ≡ target
unfolding distance
distance-ok position target len h = ground arith

-- What is documented of a reader of an image: it reads from its offset on, and gives nothing only at
-- the end.
pub record ReadsImage (R : Reader) (image : ℕ → ℕ) (size : ℕ) : Type 0 where
  pub offset : R.State → ℕ
  pub read-window :
      (n : ℕ) (r : R.State)
      → Ensures
          (λ bytes r'.
            (bytes ≡ window image (offset r) (length bytes))
            × (length bytes ≤ n)
            × (offset r' ≡ offset r + length bytes))
          (λ _. Unit)
          (R.read n r)
  pub read-end :
      (n : ℕ) (r : R.State)
      → Ensures (λ bytes r'. length bytes ≡ 0 → 1 ≤ n → size ≤ offset r) (λ _. Unit) (R.read n r)
  pub offset-seek :
      (target : ℕ) (r : R.State)
      → Ensures (λ _ r'. offset r' ≡ target) (λ _. Unit) (R.seek target r)

module _ (R : Reader) (image : ℕ → ℕ) (size : ℕ) (F : ReadsImage R image size) where
  abbrev pub Counted : Type 0
  Counted = R.State × ℕ

  -- The counted position is that of the reader.
  abbrev pub InStep : Counted → Type 0
  InStep (r, p) = p ≡ F.offset r

  abbrev pub Next : ℕ → Counted → List ℕ → Counted → Type 0
  Next n t bytes t' =
      (bytes ≡ window image t.1 (length bytes))
      × (length bytes ≤ n)
      × (t'.1 ≡ t.1 + length bytes)
      × InStep t'

  moved_on-Next :
      (n : ℕ) (r : R.State) (p : ℕ) (q : Result IoError (List ℕ) × R.State)
      → p ≡ F.offset r
      → Ensures
          (λ bytes r'.
            (bytes ≡ window image (F.offset r) (length bytes))
            × (length bytes ≤ n)
            × (F.offset r' ≡ F.offset r + length bytes))
          (λ _. Unit)
          q
      → Ensures (Next n (r, p)) (λ _. Unit) (moved_on p q)
  moved_on-Next n r p (err e, r') step h = tt
  moved_on-Next n r p (ok bytes, r') step (read, fits, moved) =
      (read ∙ ap (λ x. window image x (length bytes)) (sym step), fits, refl, omega arith)

  pub counted-Next :
      (n : ℕ) (t : Counted) → InStep t → Ensures (Next n t) (λ _. Unit) (counted R n t)
  unfolding counted
  counted-Next n (r, p) step = moved_on-Next n r p (R.read n r) step (F.read-window n r)

  pub counted-end :
      (n : ℕ) (t : Counted)
      → InStep t
      → Ensures (λ bytes t'. length bytes ≡ 0 → 1 ≤ n → size ≤ t.1) (λ _. Unit) (counted R n t)
  unfolding counted
  counted-end n (r, p) step = ended (R.read n r) (F.read-end n r)
    where
      ended :
          (q : Result IoError (List ℕ) × R.State)
          → Ensures (λ bytes r'. length bytes ≡ 0 → 1 ≤ n → size ≤ F.offset r) (λ _. Unit) q
          → Ensures {S = Counted}
              (λ bytes t'. length bytes ≡ 0 → 1 ≤ n → size ≤ p)
              (λ _. Unit)
              (moved_on p q)
      ended (ok bytes, r') h = λ none_read asked. let below = h none_read asked in omega arith
      ended (err e, r') h = tt

  abbrev Skipped : ℕ → Counted × Unit {0} → Type 0
  Skipped target (t, u) = (t.1 ≡ target) × InStep t

  abbrev Skips : ℕ → Type 0
  Skips fuel =
      (left : ℕ) (t : Counted)
      → left ≤ fuel
      → InStep t
      → Ensures (λ _. Skipped (t.1 + left)) (λ _. Unit)
          (pass_loop (counted R) (λ s. s.1) (no_sink R) fuel left (t, tt))

  handed :
      (fuel left : ℕ) (t : Counted) (q : Result IoError (List ℕ) × Counted)
      → Skips fuel
      → left ≤ suc fuel
      → Ensures (Next (min left copy_buffer_size) t) (λ _. Unit) q
      → Ensures
          (λ _. Skipped (t.1 + left))
          (λ _. Unit)
          (continue
            (λ bytes u.
              continue
                (λ (_ : Unit {0}).
                  pass_loop (counted R) (λ s. s.1) (no_sink R) fuel (left - length bytes))
                (hand (counted R) (λ s. s.1) (no_sink R) bytes u))
            (behind tt (with_error read_error q)))
  unfolding hand on_second no_sink
  handed fuel left t (err e, t') skips enough h = tt
  handed fuel left t (ok [], t') skips enough h = tt
  handed fuel left t (ok (b ∷ bytes), t') skips enough (read, fits, moved, step) =
      let m = length (b ∷ bytes) in
      Ensures-weaken (λ _. Skipped (t'.1 + (left - m))) (λ _. Skipped (t.1 + left)) (λ _. Unit)
        (λ _. Unit) (pass_loop (counted R) (λ s. s.1) (no_sink R) fuel (left - m) (t', tt))
        (λ _ u (at, still). (at ∙ omega arith, still)) (λ u k. tt)
        (skips (left - m) t' (omega arith) step)

  pass_loop-Skipped : (fuel : ℕ) → Skips fuel
  unfolding pass_loop ◌>>=◌ on_first map_error
  pass_loop-Skipped zero left t enough step = (omega arith, step)
  pass_loop-Skipped (suc fuel) left t enough step = elim (Bool-cases (left == 0)) [
    | inl done ↦ let none_left : left ≡ 0 = ground arith in rw done (omega arith, step)
    | inr more ↦ rw more (
        handed fuel left t (counted R (chunk_len left copy_buffer_size) t) (pass_loop-Skipped fuel)
          enough (counted-Next (chunk_len left copy_buffer_size) t step))
  ]

  pub skip_stream-position :
      (target : ℕ) (t : Counted)
      → InStep t
      → Ensures (λ _ t'. (t'.1 ≡ target) × InStep t') (λ _. Unit) (skip_stream R target t)
  unfolding skip_stream read_over pass_through
  skip_stream-position target t step = go (distance t.1 target) refl
    where
      arrived :
          (len : ℕ)
          → t.1 + len ≡ target
          → (q : Result Text (Unit {0}) × (Counted × Unit {0}))
          → Ensures (λ _. Skipped (t.1 + len)) (λ _. Unit) q
          → Ensures {S = Counted} (λ _ t'. (t'.1 ≡ target) × InStep t') (λ _. Unit) (q.0, q.1.0)
      arrived len end (ok _, (t', u)) (at, still) = (at ∙ end, still)
      arrived len end (err e, (t', u)) h = tt

      go :
          (d : Result Text ℕ)
          → distance t.1 target ≡ d
          → Ensures (λ _ t'. (t'.1 ≡ target) × InStep t') (λ _. Unit) (read_over R d t)
      go (err e) h = tt
      go (ok len) h =
          arrived len (distance-ok t.1 target len h)
            (pass_loop (counted R) (λ s. s.1) (no_sink R) len len (t, tt))
            (pass_loop-Skipped len len t (omega arith) step)

  pub skip_seekable-position :
      (target : ℕ) (t : Counted)
      → InStep t
      → Ensures (λ _ t'. (t'.1 ≡ target) × InStep t') (λ _. Unit) (skip_seekable R target t)
  unfolding skip_seekable seek_over
  skip_seekable-position target (r, p) step = go (distance p target)
    where
      arrived :
          (q : Result IoError (Unit {0}) × R.State)
          → Ensures (λ _ r'. F.offset r' ≡ target) (λ _. Unit) q
          → Ensures {S = Counted}
              (λ _ t'. (t'.1 ≡ target) × InStep t')
              (λ _. Unit)
              (sought p target q)
      arrived (ok _, r') h = (refl, sym h)
      arrived (err e, r') h = tt

      go :
          (d : Result Text ℕ)
          → Ensures (λ _ t'. (t'.1 ≡ target) × InStep t') (λ _. Unit) (seek_over R target d (r, p))
      go (err e) = tt
      go (ok len) = arrived (R.seek target r) (F.offset-seek target r)

  -- A `Stream` reads what it skips.
  abbrev pub stream-GivesImage : GivesImage (stream R) image size
  stream-GivesImage = record {
    Valid = InStep;
    read-window = counted-Next;
    read-end = counted-end;
    skip-position = skip_stream-position;
  }

  -- A `Seekable` seeks over what it skips.
  abbrev pub seekable-GivesImage : GivesImage (seekable R) image size
  seekable-GivesImage = record {
    Valid = InStep;
    read-window = counted-Next;
    read-end = counted-end;
    skip-position = skip_seekable-position;
  }
