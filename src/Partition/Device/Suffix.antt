-- ===== src/Partition/Device/Suffix.antt =====
-- The names that partition_path writes and split_partition_suffix of src/partition/device.rs reads.
use omnect_os_init.Base.{
  ◌≡◌, refl, sym, ap, ◌∙◌, ℕ, ◌<◌, Bool, true, false, [], ◌∷◌, ◌++◌, some, ok, length, ◌==◌, arith,
  Bool-cases, all, ◌+◌, inl, inr, length-append, Option-cases, ==_iff,
}
use omnect_os_init.Base.Text.{
  Text, lit, is_ascii_digit, is_empty, ends_with, strip_suffix, trim_end, unsnoc,
}
use omnect_os_init.Base.Text.Digits.{decimal-all}
use omnect_os_init.Base.Text.Laws.{unsnoc-append}
use omnect_os_init.Base.Text.Numbers.{decimal, decimal-StartsWithDigit, StartsWithDigit}
use omnect_os_init.Partition.Device.{
  partition_sep_for_name, partition_path, base_of, split_partition_suffix,
}

trim_end-all : (p : ℕ → Bool) (t : Text) → all p t ≡ true → trim_end p t ≡ []
unfolding trim_end
trim_end-all p [] h = refl
trim_end-all p (c ∷ t) h = ground (arith, trim_end-all p t)

trim_end-append : (p : ℕ → Bool) (s t : Text) → all p t ≡ true → trim_end p (s ++ t) ≡ trim_end p s
unfolding trim_end
trim_end-append p [] t h = trim_end-all p t h
trim_end-append p (c ∷ s) t h = rw (trim_end-append p s t h) refl

ends_with-cons : (p : ℕ → Bool) (c d : ℕ) (s : Text) → ends_with p (c ∷ d ∷ s) ≡ ends_with p (d ∷ s)
unfolding ends_with unsnoc
ends_with-cons p c d s = elim (Option-cases (unsnoc (d ∷ s))) [
  | inl e ↦ ground arith
  | inr (r, e) ↦ ground arith
]

trim_end-ends_with : (p : ℕ → Bool) (s : Text) → ends_with p s ≡ false → trim_end p s ≡ s
unfolding trim_end
trim_end-ends_with p [] h = refl
trim_end-ends_with p (c ∷ []) h = unfold ends_with unsnoc in ground arith
trim_end-ends_with p (c ∷ d ∷ s) h =
    rw (trim_end-ends_with p (d ∷ s) (sym (ends_with-cons p c d s) ∙ h)) refl

-- A disk that the kernel names without a `p` before the partition number, though its own name has
-- one there.
abbrev pub EndsInDigitAndP : Text → Type 0
EndsInDigitAndP base =
    (disk : Text) × (base ≡ disk ++ b'p' ∷ []) × (ends_with is_ascii_digit disk ≡ true)

unsnoc-eq-some : (s i : Text) (l : ℕ) → unsnoc s ≡ some (i, l) → s ≡ i ++ l ∷ []
unfolding unsnoc
unsnoc-eq-some [] i l h = cc
unsnoc-eq-some (c ∷ []) i l h = ground arith
unsnoc-eq-some (c ∷ d ∷ s) i l h = elim (Option-cases (unsnoc (d ∷ s))) [
  | inl e ↦ ground arith
  | inr (r, e) ↦ ground (arith, unsnoc-eq-some (d ∷ s) r.0 r.1 e)
]

base_of-eq :
    (base : Text) → (EndsInDigitAndP base → ⊥) → base_of base (strip_suffix b'p' base) ≡ base
unfolding base_of strip_suffix
base_of-eq base h = elim (Option-cases (unsnoc base)) [
  | inl e ↦ ground arith
  | inr ((disk, l), e) ↦
      let whole = unsnoc-eq-some base disk l e in
      let bad : l ≡ b'p' → ends_with is_ascii_digit disk ≡ true → ⊥ =
        λ q d. h (disk, whole ∙ ap (λ x. disk ++ x ∷ []) q, d) in
      ground (arith, ==_iff l b'p', Bool-cases (ends_with is_ascii_digit disk))
]

non_empty : (base t : Text) → is_empty base ≡ false → is_empty (base ++ t) ≡ false
non_empty [] t h = cc
non_empty (c ∷ base) t h = refl

length-ne : (a b : ℕ) → 0 < b → (a == a + b) ≡ false
length-ne a b h = ground arith

decimal-length : (n : ℕ) → 0 < length (decimal n)
decimal-length n = of_text (decimal n) (decimal-StartsWithDigit n)
  where
    of_text : (t : Text) → StartsWithDigit t → 0 < length t
    of_text [] h = absurd h
    of_text (c ∷ t) h = omega arith

append-cons : (s t : Text) (c : ℕ) → (s ++ c ∷ []) ++ t ≡ s ++ c ∷ t
append-cons [] t c = refl
append-cons (d ∷ s) t c = ap (λ r. d ∷ r) (append-cons s t c)

-- A name of a stem and digits, where the stem leads to a disk.
split_partition_suffix-append :
    (stem digits base : Text)
    → is_empty stem ≡ false
    → ends_with is_ascii_digit stem ≡ false
    → all is_ascii_digit digits ≡ true
    → 0 < length digits
    → base_of stem (strip_suffix b'p' stem) ≡ base
    → split_partition_suffix (stem ++ digits) ≡ ok (base, partition_sep_for_name base)
unfolding split_partition_suffix
split_partition_suffix-append stem digits base filled bare numeric positive found =
    rw
      (
        trim_end-append is_ascii_digit stem digits numeric,
        trim_end-ends_with is_ascii_digit stem bare,
        length-append stem digits,
        length-ne (length stem) (length digits) positive,
        filled,
        found,
      )
      refl

ends_with-append : (p : ℕ → Bool) (s : Text) (c : ℕ) → ends_with p (s ++ c ∷ []) ≡ p c
unfolding ends_with
ends_with-append p s c = ground (arith, unsnoc-append s c)

base_of-append :
    (base : Text)
    → ends_with is_ascii_digit base ≡ true
    → base_of (base ++ b'p' ∷ []) (strip_suffix b'p' (base ++ b'p' ∷ [])) ≡ base
unfolding base_of strip_suffix
base_of-append base h = ground (arith, unsnoc-append base b'p')

partition_path-p :
    (base : Text) (n : ℕ)
    → ends_with is_ascii_digit base ≡ true
    → partition_path base (partition_sep_for_name base) n ≡ (base ++ b'p' ∷ []) ++ decimal n
unfolding partition_path partition_sep_for_name lit
partition_path-p base n h = rw (h, append-cons base (decimal n) b'p') refl

partition_path-plain :
    (base : Text) (n : ℕ)
    → ends_with is_ascii_digit base ≡ false
    → partition_path base (partition_sep_for_name base) n ≡ base ++ decimal n
unfolding partition_path partition_sep_for_name
partition_path-plain base n h = rw h refl

-- Splitting undoes the naming of partitions: the name of any partition of a disk splits into the
-- disk and the separator it was written with, if the disk has a name that does not itself end in a
-- digit and a `p`.
pub split_partition_suffix-partition_path :
    (base : Text) (n : ℕ)
    → is_empty base ≡ false
    → ¬ EndsInDigitAndP base
    → split_partition_suffix (partition_path base (partition_sep_for_name base) n)
      ≡ ok (base, partition_sep_for_name base)
split_partition_suffix-partition_path base n filled plain =
    elim (Bool-cases (ends_with is_ascii_digit base)) [
      | inl digit ↦
          ap split_partition_suffix (partition_path-p base n digit)
          ∙ split_partition_suffix-append (base ++ b'p' ∷ []) (decimal n) base
              (non_empty base _ filled)
              (ends_with-append is_ascii_digit base b'p' ∙ unfold is_ascii_digit in refl)
              (decimal-all n) (decimal-length n) (base_of-append base digit)
      | inr letter ↦
          ap split_partition_suffix (partition_path-plain base n letter)
          ∙ split_partition_suffix-append base (decimal n) base filled letter (decimal-all n)
              (decimal-length n) (base_of-eq base plain)
    ]

-- A disk whose name does not end in a `p` is no such disk.
pub not_p-EndsInDigitAndP :
    (base : Text) → ends_with (λ c. c == b'p') base ≡ false → ¬ EndsInDigitAndP base
not_p-EndsInDigitAndP base h (disk, whole, digit) =
    let p = ends_with-append (λ c. c == b'p') disk b'p' in
    let q = ap (ends_with (λ c. c == b'p')) whole in ground arith
