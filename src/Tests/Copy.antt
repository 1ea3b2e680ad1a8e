-- ===== src/Tests/Copy.antt =====
-- A run of the copy of an image.
use omnect_os_init.Base.{
  ◌≡◌, refl, sym, ap, ℕ, zero, suc, List, [], ◌∷◌, ◌++◌, ok, length, min, ◌+◌, ◌-◌, arith,
}
use omnect_os_init.Base.Exec.{◌>>=◌, map_error, on_first, on_second}
use omnect_os_init.Mode.Bmap.{Bmap}
use omnect_os_init.Mode.Bmap.Copy.{Reader, Output, Hasher, skip_stream, stream, copy_stream}
use omnect_os_init.Mode.Bmap.Copy.Image.{window, overlay, KeepsBytes, Digests}
use omnect_os_init.Mode.Bmap.Copy.Inputs.{ReadsImage, stream-GivesImage}
use omnect_os_init.Mode.Bmap.Copy.Stream.{IsCopy, copy_stream-IsCopy}

-- An image of four bytes.
abbrev image : ℕ → ℕ
image j = j + 7

abbrev rest : ℕ → ℕ → ℕ
rest n offset = min n (4 - offset)

abbrev reader : Reader
reader = record {
  State = ℕ;
  read = λ n r. (ok (window image r (rest n r)), r + rest n r);
  seek = λ target r. (ok tt, target);
}

length-window : (p n : ℕ) → length (window image p n) ≡ n
length-window p zero = refl
length-window p (suc n) = ap (λ m. suc m) (length-window (p + 1) n)

reads : ReadsImage reader image 4
reads = record {
  offset = λ r. r;
  read-window = λ n r. (
    ap (window image r) (sym (length-window r (rest n r))),
    omega (arith, length-window r (rest n r)),
    ap (λ m. r + m) (sym (length-window r (rest n r))),
  );
  read-end = λ n r none_read asked. omega (arith, length-window r (rest n r));
  offset-seek = λ target r. refl;
}

-- A destination of zeros, with the cursor.
abbrev output : Output
output = record {
  State = (ℕ → ℕ) × ℕ;
  seek = λ target o. (ok tt, (o.0, target));
  write_all = λ bytes o. (ok tt, (overlay o.1 bytes o.0, o.1 + length bytes));
}

abbrev keeps : KeepsBytes output
keeps = record {
  stored = λ o. o.0;
  cursor = λ o. o.1;
  seek-cursor = λ target o. (refl, λ j. refl);
  stored-write = λ bytes o. (refl, λ j. refl);
}

-- A digest that is the list of all bytes.
abbrev hasher : Hasher
hasher = record { State = List ℕ; new = []; update = λ bytes h. h ++ bytes; finalize = λ h. h }

abbrev digests : Digests hasher (λ bytes. bytes)
digests = record {
  absorbed = λ h. h;
  absorbed-new = refl;
  absorbed-update = λ bytes h. refl;
  finalize-digest = λ h. refl;
}

abbrev bmap : Bmap
bmap = record {
  image_size = 4;
  ranges = record { bytes = record { offset = 1; len = 2 }; sha256 = 8 ∷ 9 ∷ [] } ∷ [];
}

copy_example :
    IsCopy
      (stream reader)
      output
      hasher
      image
      4
      (stream-GivesImage reader image 4 reads)
      keeps
      (λ bytes. bytes)
      digests
      bmap
      (λ j. 0, 0)
      (copy_stream (stream reader) output hasher bmap ((0, 0), (λ j. 0, 0))).1.1
unfolding ◌>>=◌ map_error on_first on_second reads skip_stream
copy_example =
    copy_stream-IsCopy (stream reader) output hasher image 4
      (stream-GivesImage reader image 4 reads) keeps (λ bytes. bytes) digests bmap (0, 0)
      (λ j. 0, 0) refl (unfold copy_stream in refl)
