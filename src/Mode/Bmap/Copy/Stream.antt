-- ===== src/Mode/Bmap/Copy/Stream.antt =====
-- What a copy of src/mode/flash/bmap/copy.rs that succeeds leaves on the destination.
use omnect_os_init.Base.{
  ◌≡◌, refl, sym, ap, subst, ◌∙◌, ℕ, Bool, ◌||◌, List, [], ◌∷◌, ◌++◌, if◌then◌else◌, Result, ok,
  err, length, ◌≤◌, arith, Bool-cases, inl, inr, All,
}
use omnect_os_init.Base.Exec.{
  Ensures, Ensures-ok, Ensures-weaken, continue-Ensures, continue, behind, beside, with_error, pure,
  map_error, on_first, on_second, ◌>>=◌,
}
use omnect_os_init.Base.Text.{Text, lit, text_eq}
use omnect_os_init.Base.Text.Laws.{text_eq→eq}
use omnect_os_init.Error.{IoError}
use omnect_os_init.Mode.Bmap.{MappedRange, Bmap}
use omnect_os_init.Mode.Bmap.Copy.{
  Input, Output, Hasher, pass_loop, pass_through, hash_and_write, digested, pass_range,
  check_digest, copy_range, copy_ranges, refuse_extra, copy_stream,
}
use omnect_os_init.Mode.Bmap.Gaps.{maps}
use omnect_os_init.Mode.Bmap.Copy.Image.{
  window, inside, GivesImage, KeepsBytes, Digests, Pass, Passed, pass_loop-Passed,
}

module _ (I : Input) (O : Output) (H : Hasher) (image : ℕ → ℕ) (size : ℕ)
    (G : GivesImage I image size) (K : KeepsBytes O) (digest : List ℕ → List ℕ)
    (D : Digests H digest) where
  -- The destination holds the image on a range, and what it held before elsewhere.
  abbrev HoldsRange : MappedRange → O.State → O.State → Type 0
  HoldsRange r o o' =
      (j : ℕ)
      → K.stored o' j ≡ (if inside r.bytes.offset r.bytes.len j then image j else K.stored o j)

  abbrev HasDigest : MappedRange → Type 0
  HasDigest r = digest (window image r.bytes.offset r.bytes.len) ≡ r.sha256

  abbrev Unchanged : O.State → O.State → Type 0
  Unchanged o o' = (j : ℕ) → K.stored o' j ≡ K.stored o j

  skipped :
      (target : ℕ) (o : O.State) (q : Result Text (Unit {0}) × I.State)
      → Ensures (λ _ i'. (I.position i' ≡ target) × G.Valid i') (λ _. Unit) q
      → Ensures {S = I.State × O.State}
          (λ _ (i', o'). (I.position i' ≡ target) × G.Valid i' × Unchanged o o')
          (λ _. Unit)
          (behind o q)
  skipped target o (ok _, i) (at, valid) = (at, valid, λ j. refl)
  skipped target o (err e, i) h = tt

  placed :
      (target : ℕ) (o : O.State) (i : I.State) (what : IoError → Text)
      (q : Result IoError (Unit {0}) × O.State)
      → Ensures (λ _ o'. (K.cursor o' ≡ target) × Unchanged o o') (λ _. Unit) q
      → I.position i ≡ target
      → G.Valid i
      → Ensures {S = I.State × O.State}
          (λ _ (i', o').
            (I.position i' ≡ target) × (K.cursor o' ≡ target) × G.Valid i' × Unchanged o o')
          (λ _. Unit)
          (beside i (with_error what q))
  placed target o i what (ok _, o') (cursor, same) at valid = (at, cursor, valid, same)
  placed target o i what (err e, o') h at valid = tt

  pass_range-HoldsRange :
      (r : MappedRange) (i : I.State) (o : O.State)
      → I.position i ≡ r.bytes.offset
      → K.cursor o ≡ r.bytes.offset
      → G.Valid i
      → Ensures {S = I.State × O.State}
          (λ d (i', o').
            (d ≡ digest (window image r.bytes.offset r.bytes.len)) × HoldsRange r o o' × G.Valid i')
          (λ _. Unit)
          (pass_range I O H r.bytes.len (i, o))
  unfolding pass_range pass_through
  pass_range-HoldsRange r i o at there valid =
      finished
        (pass_loop I.read I.position (hash_and_write I O H) r.bytes.len r.bytes.len (i, (H.new, o)))
        (pass_loop-Passed I O H image size G K digest D r.bytes.len r.bytes.len i H.new o
          (omega arith) valid (at ∙ sym there))
    where
      finished :
          (q : Result Text (Unit {0}) × Pass I O H image size G K digest D)
          → Ensures
              (λ _. Passed I O H image size G K digest D (I.position i) r.bytes.len H.new o)
              (λ _. Unit)
              q
          → Ensures {S = I.State × O.State}
              (λ d (i', o').
                (d ≡ digest (window image r.bytes.offset r.bytes.len))
                × HoldsRange r o o'
                × G.Valid i')
              (λ _. Unit)
              (digested I O H q)
      finished (err e, u) h = tt
      finished (ok _, (i', (h', o'))) (_, _, stored, absorbed, valid') = (
        D.finalize-digest h'
            ∙ ap digest (
                absorbed
                ∙ ap (λ t. t ++ window image (I.position i) r.bytes.len) D.absorbed-new
                ∙ ap (λ p. window image p r.bytes.len) at),
        λ j. stored j ∙ ap (λ p. if inside p r.bytes.len j then image j else K.stored o j) at,
        valid',
      )

  checked :
      (r : MappedRange) (d : List ℕ) (o : O.State) (u : I.State × O.State)
      → d ≡ digest (window image r.bytes.offset r.bytes.len)
      → HoldsRange r o u.1
      → G.Valid u.0
      → Ensures
          (λ _ v. HoldsRange r o v.1 × HasDigest r × G.Valid v.0)
          (λ _. Unit)
          (check_digest I O H r d u)
  unfolding check_digest
  checked r d o u given holds valid = elim (Bool-cases (text_eq d r.sha256)) [
    | inl same ↦ rw same (holds, sym given ∙ text_eq→eq d r.sha256 same, valid)
    | inr other ↦ rw other tt
  ]

  copy_range-HoldsRange :
      (r : MappedRange) (i : I.State) (o : O.State)
      → G.Valid i
      → Ensures
          (λ _ v. HoldsRange r o v.1 × HasDigest r × G.Valid v.0)
          (λ _. Unit)
          (copy_range I O H r (i, o))
  unfolding copy_range ◌>>=◌ on_first on_second map_error
  copy_range-HoldsRange r i o valid =
      let target = r.bytes.offset in
      continue-Ensures (λ _ (i', o'). (I.position i' ≡ target) × G.Valid i' × Unchanged o o')
        (λ _ v. HoldsRange r o v.1 × HasDigest r × G.Valid v.0) (λ _. Unit) _ _
        (skipped target o (I.skip_to target i) (G.skip-position target i valid))
        (λ _ (i1, o1) (at, valid1, same).
          continue-Ensures
            (λ _ (i', o').
              (I.position i' ≡ target) × (K.cursor o' ≡ target) × G.Valid i' × Unchanged o1 o')
            (λ _ v. HoldsRange r o v.1 × HasDigest r × G.Valid v.0) (λ _. Unit) _ _
            (placed target o1 i1 (λ (e : IoError). lit "seeking destination: " ++ e.message)
              (O.seek target o1) (K.seek-cursor target o1) at valid1)
            (λ _ (i2, o2) (at2, there, valid2, same2).
              continue-Ensures
                (λ d u.
                  (d ≡ digest (window image target r.bytes.len))
                  × HoldsRange r o2 u.1
                  × G.Valid u.0)
                (λ _ v. HoldsRange r o v.1 × HasDigest r × G.Valid v.0) (λ _. Unit) _ _
                (pass_range-HoldsRange r i2 o2 at2 there valid2)
                (λ d u (given, holds, valid3).
                  checked r d o u given
                    (λ j.
                      holds j
                      ∙ ap (λ b. if inside target r.bytes.len j then image j else b)
                          (same2 j ∙ same j))
                    valid3)))

  -- The destination holds the image on all ranges, and what it held before elsewhere.
  abbrev pub HoldsRanges : List MappedRange → O.State → O.State → Type 0
  HoldsRanges rs o o' = (j : ℕ) → K.stored o' j ≡ (if maps j rs then image j else K.stored o j)

  one_more :
      (r : MappedRange) (j : ℕ) (mapped : Bool) (a b c : ℕ)
      → a ≡ (if mapped then image j else b)
      → b ≡ (if inside r.bytes.offset r.bytes.len j then image j else c)
      → a ≡ (if inside r.bytes.offset r.bytes.len j || mapped then image j else c)
  one_more r j mapped a b c h k = ground arith

  copy_ranges-HoldsRanges :
      (rs : List MappedRange) (i : I.State) (o : O.State)
      → G.Valid i
      → Ensures
          (λ _ v. HoldsRanges rs o v.1 × All HasDigest rs × G.Valid v.0)
          (λ _. Unit)
          (copy_ranges I O H rs (i, o))
  unfolding copy_ranges ◌>>=◌ pure
  copy_ranges-HoldsRanges [] i o valid = (λ j. refl, tt, valid)
  copy_ranges-HoldsRanges (r ∷ rs) i o valid =
      continue-Ensures (λ _ v. HoldsRange r o v.1 × HasDigest r × G.Valid v.0)
        (λ _ v. HoldsRanges (r ∷ rs) o v.1 × All HasDigest (r ∷ rs) × G.Valid v.0) (λ _. Unit) _ _
        (copy_range-HoldsRange r i o valid)
        (λ _ (i1, o1) (holds, sum, valid1).
          Ensures-weaken (λ _ v. HoldsRanges rs o1 v.1 × All HasDigest rs × G.Valid v.0)
            (λ _ v. HoldsRanges (r ∷ rs) o v.1 × All HasDigest (r ∷ rs) × G.Valid v.0) (λ _. Unit)
            (λ _. Unit) (copy_ranges I O H rs (i1, o1))
            (λ _ v (more, sums, valid2). (
              λ j.
                  one_more r j (maps j rs) (K.stored v.1 j) (K.stored o1 j) (K.stored o j) (more j)
                    (holds j),
              (sum, sums),
              valid2,
            ))
            (λ v k. tt) (copy_ranges-HoldsRanges rs i1 o1 valid1))

  -- What a copy leaves: the mapped bytes of the image, and no other byte was written; every range
  -- has its checksum, and the source has no byte behind the image.
  abbrev pub IsCopy : Bmap → O.State → O.State → Type 0
  IsCopy bmap o o' =
      HoldsRanges bmap.ranges o o' × All HasDigest bmap.ranges × (size ≤ bmap.image_size)

  probed :
      (bmap : Bmap) (o o' : O.State) (i : I.State) (q : Result IoError (List ℕ) × I.State)
      → HoldsRanges bmap.ranges o o'
      → All HasDigest bmap.ranges
      → I.position i ≡ bmap.image_size
      → Ensures (λ bytes i'. length bytes ≡ 0 → 1 ≤ 1 → size ≤ I.position i) (λ _. Unit) q
      → Ensures
          (λ _ v. IsCopy bmap o v.1)
          (λ _. Unit)
          (continue
            (refuse_extra I O H bmap.image_size)
            (behind o' (with_error (λ (e : IoError). lit "reading source: " ++ e.message) q)))
  unfolding refuse_extra
  probed bmap o o' i (err e, i') holds sums at h = tt
  probed bmap o o' i (ok [], i') holds sums at h =
      (holds, sums, subst (λ n. size ≤ n) at (h refl (omega arith)))
  probed bmap o o' i (ok (b ∷ bytes), i') holds sums at h = tt

  copy_stream-Ensures :
      (bmap : Bmap) (i : I.State) (o : O.State)
      → G.Valid i
      → Ensures (λ _ v. IsCopy bmap o v.1) (λ _. Unit) (copy_stream I O H bmap (i, o))
  unfolding copy_stream ◌>>=◌ on_first map_error
  copy_stream-Ensures bmap i o valid =
      continue-Ensures
        (λ _ v. HoldsRanges bmap.ranges o v.1 × All HasDigest bmap.ranges × G.Valid v.0)
        (λ _ v. IsCopy bmap o v.1) (λ _. Unit) _ _ (copy_ranges-HoldsRanges bmap.ranges i o valid)
        (λ _ (i1, o1) (holds, sums, valid1).
          continue-Ensures
            (λ _ (i', o'). (I.position i' ≡ bmap.image_size) × G.Valid i' × Unchanged o1 o')
            (λ _ v. IsCopy bmap o v.1) (λ _. Unit) _ _
            (skipped bmap.image_size o1 (I.skip_to bmap.image_size i1)
              (G.skip-position bmap.image_size i1 valid1))
            (λ _ (i2, o2) (at, valid2, same).
              probed bmap o o2 i2 (I.read 1 i2) (λ j. same j ∙ holds j) sums at
                (G.read-end 1 i2 valid2)))

  -- With a source that gives an image, a destination that keeps its bytes and a digest of all bytes
  -- that it was given: a copy that succeeds leaves the image on the mapped ranges and every other
  -- byte of the destination as it was, each range of the image has the checksum of the map, and the
  -- source has no byte behind the size of the map.
  pub copy_stream-IsCopy :
      (bmap : Bmap) (i : I.State) (o : O.State)
      → G.Valid i
      → (copy_stream I O H bmap (i, o)).0 ≡ ok tt
      → IsCopy bmap o (copy_stream I O H bmap (i, o)).1.1
  copy_stream-IsCopy bmap i o valid =
      Ensures-ok (λ _ v. IsCopy bmap o v.1) (λ _. Unit) (copy_stream I O H bmap (i, o)) tt
        (copy_stream-Ensures bmap i o valid)
