-- ===== src/Mode/Bmap/Copy/Image.antt =====
-- What a pass of bytes of src/mode/flash/bmap/copy.rs leaves on the destination and in the digest.
use mathlib.Core.List.{append_assoc, append-nil}
use omnect_os_init.Base.{
  ◌≡◌, refl, sym, ap, subst, ◌∙◌, ℕ, zero, suc, Bool, ◌&&◌, List, [], ◌∷◌, ◌++◌, if◌then◌else◌,
  Result, ok, err, length, ◌==◌, ltb, leb, min, ◌+◌, ◌-◌, ◌≤◌, arith, Bool-cases, inl, inr,
}
use omnect_os_init.Base.Exec.{
  Ensures, Ensures-weaken, continue, behind, beside, with_error, map_error, on_first, on_second,
  ◌>>=◌,
}
use omnect_os_init.Base.Text.{lit}
use omnect_os_init.Error.{IoError}
use omnect_os_init.Mode.Bmap.Copy.{
  Input, Output, Hasher, copy_buffer_size, chunk_len, read_error, hand, pass_loop, hash_and_write,
}

-- The bytes of an image from a position on.
abbrev pub window : (ℕ → ℕ) → (position len : ℕ) → List ℕ
window image p zero = []
window image p (suc n) = image p ∷ window image (p + 1) n

-- A destination with bytes written at a position.
abbrev pub overlay : ℕ → List ℕ → (ℕ → ℕ) → ℕ → ℕ
overlay p [] f j = f j
overlay p (b ∷ bytes) f j = overlay (p + 1) bytes (λ i. if i == p then b else f i) j

-- The image on a range, and what was there before elsewhere.
abbrev pub inside : (position len : ℕ) → ℕ → Bool
inside p n j = leb p j && ltb j (p + n)

one_byte :
    (image f : ℕ → ℕ) (p n j : ℕ)
    → (if inside (p + 1) n j then image j else if j == p then image p else f j)
      ≡ (if inside p (suc n) j then image j else f j)
one_byte image f p n j = elim (Bool-cases (j == p)) [
  | inl same ↦ let e : j ≡ p = ground arith in ground (arith, ap image e)
  | inr other ↦ ground arith
]

overlay-window :
    (image f : ℕ → ℕ) (p n j : ℕ)
    → overlay p (window image p n) f j ≡ (if inside p n j then image j else f j)
overlay-window image f p zero j = ground arith
overlay-window image f p (suc n) j =
    overlay-window image (λ i. if i == p then image p else f i) (p + 1) n j ∙ one_byte image f p n j

window_at : (image : ℕ → ℕ) (p q m n : ℕ) → p ≡ q → m ≡ n → window image p m ≡ window image q n
window_at image p q m n h k = rw (h, k) refl

window-append :
    (image : ℕ → ℕ) (p m n : ℕ)
    → window image p m ++ window image (p + m) n ≡ window image p (m + n)
window-append image p zero n = window_at image (p + 0) p n (0 + n) (omega arith) (omega arith)
window-append image p (suc m) n =
    ap (λ t. image p ∷ (window image (p + 1) m ++ t))
      (window_at image (p + suc m) (p + 1 + m) n n (omega arith) refl)
    ∙ ap (λ t. image p ∷ t) (window-append image (p + 1) m n)
    ∙ window_at image p p (suc (m + n)) (suc m + n) refl (omega arith)

-- What a source gives: a read gives the next bytes of the image, and nothing only at the end; a
-- skip ends at its target.
pub record GivesImage (I : Input) (image : ℕ → ℕ) (size : ℕ) : Type 1 where
  -- what holds of the source between its operations
  pub Valid : I.State → Type 0
  pub read-window :
      (n : ℕ) (i : I.State)
      → Valid i
      → Ensures
          (λ bytes i'.
            (bytes ≡ window image (I.position i) (length bytes))
            × (length bytes ≤ n)
            × (I.position i' ≡ I.position i + length bytes)
            × Valid i')
          (λ _. Unit)
          (I.read n i)
  pub read-end :
      (n : ℕ) (i : I.State)
      → Valid i
      → Ensures
          (λ bytes i'. length bytes ≡ 0 → 1 ≤ n → size ≤ I.position i)
          (λ _. Unit)
          (I.read n i)
  pub skip-position :
      (target : ℕ) (i : I.State)
      → Valid i
      → Ensures (λ _ i'. (I.position i' ≡ target) × Valid i') (λ _. Unit) (I.skip_to target i)

-- What is documented of the destination: a write changes the bytes at the cursor alone and moves it.
pub record KeepsBytes (O : Output) : Type 0 where
  pub stored : O.State → ℕ → ℕ
  pub cursor : O.State → ℕ
  pub seek-cursor :
      (target : ℕ) (o : O.State)
      → Ensures
          (λ _ o'. (cursor o' ≡ target) × ((j : ℕ) → stored o' j ≡ stored o j))
          (λ _. Unit)
          (O.seek target o)
  pub stored-write :
      (bytes : List ℕ) (o : O.State)
      → Ensures
          (λ _ o'.
            (cursor o' ≡ cursor o + length bytes)
            × ((j : ℕ) → stored o' j ≡ overlay (cursor o) bytes (stored o) j))
          (λ _. Unit)
          (O.write_all bytes o)

-- What is documented of the digest: it is that of all bytes that it was given.
pub record Digests (H : Hasher) (digest : List ℕ → List ℕ) : Type 0 where
  pub absorbed : H.State → List ℕ
  pub absorbed-new : absorbed H.new ≡ []
  pub absorbed-update :
      (bytes : List ℕ) (h : H.State) → absorbed (H.update bytes h) ≡ absorbed h ++ bytes
  pub finalize-digest : (h : H.State) → H.finalize h ≡ digest (absorbed h)

module _ (I : Input) (O : Output) (H : Hasher) (image : ℕ → ℕ) (size : ℕ)
    (G : GivesImage I image size) (K : KeepsBytes O) (digest : List ℕ → List ℕ)
    (D : Digests H digest) where
  abbrev pub Pass : Type 0
  Pass = I.State × (H.State × O.State)

  -- What the pass of some bytes from a position on leaves.
  abbrev pub Passed : (position left : ℕ) → H.State → O.State → Pass → Type 0
  Passed p left h o (i', (h', o')) =
      (I.position i' ≡ p + left)
      × (K.cursor o' ≡ p + left)
      × ((j : ℕ) → K.stored o' j ≡ (if inside p left j then image j else K.stored o j))
      × (D.absorbed h' ≡ D.absorbed h ++ window image p left)
      × G.Valid i'

  two_parts :
      (p m n j a b c : ℕ)
      → a ≡ (if inside (p + m) n j then image j else b)
      → b ≡ (if inside p m j then image j else c)
      → a ≡ (if inside p (m + n) j then image j else c)
  two_parts p m n j a b c h k = ground arith

  Passed-join :
      (p m n : ℕ) (h h' : H.State) (o o' : O.State) (u : Pass)
      → Passed (p + m) n h' o' u
      → ((j : ℕ) → K.stored o' j ≡ (if inside p m j then image j else K.stored o j))
      → D.absorbed h' ≡ D.absorbed h ++ window image p m
      → Passed p (m + n) h o u
  Passed-join p m n h h' o o' (i'', (h'', o'')) (at, there, stored, absorbed, valid) before first =
      (
        at ∙ omega arith,
        there ∙ omega arith,
        λ j.
            two_parts p m n j (K.stored o'' j) (K.stored o' j) (K.stored o j) (stored j) (before j),
        absorbed
            ∙ ap (λ t. t ++ window image (p + m) n) first
            ∙ append_assoc (D.absorbed h) (window image p m) (window image (p + m) n)
            ∙ ap (λ t. D.absorbed h ++ t) (window-append image p m n),
        valid,
      )

  abbrev pub Turns : ℕ → Type 0
  Turns fuel =
      (left : ℕ) (i : I.State) (h : H.State) (o : O.State)
      → left ≤ fuel
      → G.Valid i
      → I.position i ≡ K.cursor o
      → Ensures (λ _. Passed (I.position i) left h o) (λ _. Unit)
          (pass_loop I.read I.position (hash_and_write I O H) fuel left (i, (h, o)))

  module _ (fuel : ℕ) (turns : Turns fuel) (left : ℕ) (i : I.State) (h : H.State) (o : O.State)
      (enough : left ≤ suc fuel) (aligned : I.position i ≡ K.cursor o) where
    written :
        (b : ℕ) (bytes : List ℕ) (i' : I.State) (q : Result IoError (Unit {0}) × O.State)
        → (b ∷ bytes ≡ window image (I.position i) (length (b ∷ bytes)))
        → length (b ∷ bytes) ≤ left
        → I.position i' ≡ I.position i + length (b ∷ bytes)
        → G.Valid i'
        → Ensures
            (λ _ o'.
              (K.cursor o' ≡ K.cursor o + length (b ∷ bytes))
              × ((j : ℕ) → K.stored o' j ≡ overlay (K.cursor o) (b ∷ bytes) (K.stored o) j))
            (λ _. Unit)
            q
        → Ensures
            (λ _. Passed (I.position i) left h o)
            (λ _. Unit)
            (continue
              (λ (_ : Unit {0}).
                pass_loop I.read I.position (hash_and_write I O H) fuel (left - length (b ∷ bytes)))
              (beside i' (
                beside
                  (H.update (b ∷ bytes) h)
                  (with_error (λ (e : IoError). lit "writing destination: " ++ e.message) q))))
    written b bytes i' (err e, o') read fits moved valid wrote = tt
    written b bytes i' (ok _, o') read fits moved valid (cursor, stored) =
        let m = length (b ∷ bytes) in
        let p = I.position i in
        let rest =
          turns (left - m) i' (H.update (b ∷ bytes) h) o' (omega arith) valid (omega arith) in
        Ensures-weaken (λ _. Passed (I.position i') (left - m) (H.update (b ∷ bytes) h) o')
          (λ _. Passed p left h o) (λ _. Unit) (λ _. Unit)
          (pass_loop I.read I.position (hash_and_write I O H) fuel (left - m)
            (i', (H.update (b ∷ bytes) h, o')))
          (λ _ u k.
            subst (λ n. Passed p n h o u) (omega arith)
              (Passed-join p m (left - m) h (H.update (b ∷ bytes) h) o o' u
                (subst (λ q. Passed q (left - m) (H.update (b ∷ bytes) h) o' u) moved k)
                (λ j.
                  stored j
                  ∙ ap (λ q. overlay q (b ∷ bytes) (K.stored o) j) (sym aligned)
                  ∙ ap (λ t. overlay p t (K.stored o) j) read
                  ∙ overlay-window image (K.stored o) p m j)
                (D.absorbed-update (b ∷ bytes) h ∙ ap (λ t. D.absorbed h ++ t) read)))
          (λ u k. tt) rest

    handed :
        (q : Result IoError (List ℕ) × I.State)
        → Ensures
            (λ bytes i'.
              (bytes ≡ window image (I.position i) (length bytes))
              × (length bytes ≤ min left copy_buffer_size)
              × (I.position i' ≡ I.position i + length bytes)
              × G.Valid i')
            (λ _. Unit)
            q
        → Ensures
            (λ _. Passed (I.position i) left h o)
            (λ _. Unit)
            (continue
              (λ bytes t.
                continue
                  (λ (_ : Unit {0}).
                    pass_loop I.read I.position (hash_and_write I O H) fuel (left - length bytes))
                  (hand I.read I.position (hash_and_write I O H) bytes t))
              (behind (h, o) (with_error read_error q)))
    unfolding hand hash_and_write on_second map_error
    handed (err e, i') reads = tt
    handed (ok [], i') reads = tt
    handed (ok (b ∷ bytes), i') (read, fits, moved, valid) =
        written b bytes i' (O.write_all (b ∷ bytes) o) read (omega arith) moved valid
          (K.stored-write (b ∷ bytes) o)

  nothing_passed :
      (i : I.State) (h : H.State) (o : O.State) (left : ℕ)
      → G.Valid i
      → I.position i ≡ K.cursor o
      → left ≡ 0
      → Passed (I.position i) left h o (i, (h, o))
  nothing_passed i h o left valid aligned none_left = (
    omega arith,
    omega arith,
    λ j. ground arith,
    sym (append-nil (D.absorbed h))
        ∙ ap (λ n. D.absorbed h ++ window image (I.position i) n) (sym none_left),
    valid,
  )

  pub pass_loop-Passed : (fuel : ℕ) → Turns fuel
  unfolding pass_loop ◌>>=◌ on_first map_error
  pass_loop-Passed zero left i h o enough valid aligned =
      nothing_passed i h o left valid aligned (omega arith)
  pass_loop-Passed (suc fuel) left i h o enough valid aligned = elim (Bool-cases (left == 0)) [
    | inl done ↦ rw done (nothing_passed i h o left valid aligned (ground arith))
    | inr more ↦ rw more (
        handed fuel (pass_loop-Passed fuel) left i h o enough aligned
          (I.read (chunk_len left copy_buffer_size) i)
          (G.read-window (chunk_len left copy_buffer_size) i valid))
  ]
