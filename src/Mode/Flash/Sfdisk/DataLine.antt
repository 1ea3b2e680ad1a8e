-- ===== src/Mode/Flash/Sfdisk/DataLine.antt =====
-- The line of a partition in a dump of src/mode/flash/sfdisk.rs is no `last-lba:` header, also after
-- its size was set.
use omnect_os_init.Base.{
  ◌≡◌, refl, sym, ◌∙◌, ℕ, true, false, List, [], ◌∷◌, ◌++◌, Option, none, some, ok, err, Bool-cases,
  inl, inr, arith, ok-injective, if◌then◌else◌,
}
use omnect_os_init.Base.Text.{
  Text, lit, is_empty, is_whitespace, is_ascii_digit, trim_start, starts_with, split_once_text,
  take_while, split_whitespace,
}
use omnect_os_init.Base.Text.FirstChar.{
  head, head_word, first_char, head_word-split_whitespace, first_char-append,
}
use omnect_os_init.Base.Text.Occurrence.{split_first}
use omnect_os_init.Mode.Flash.Sfdisk.{
  begins, last_lba_field, size_field, partition_number, set_behind, set_field_u64,
}
use omnect_os_init.Partition.Layout.{partition_suffix}

device_head : (device : Text) → starts_with (lit "/dev/") device ≡ true → head device ≡ some b'/'
unfolding starts_with lit
device_head [] h = cc
device_head (c ∷ s) h = ground arith

-- The line of a partition begins with a slash.
first_char-partition_number :
    (line : Text) (n : ℕ) → partition_number line ≡ some n → first_char line ≡ some b'/'
unfolding partition_number
first_char-partition_number line n h =
    sym (head_word-split_whitespace line) ∙ go (split_whitespace line) h
  where
    go :
        (ws : List Text)
        → (elim ws [
          | [] ↦ none
          | device ∷ _ ↦ if starts_with (lit "/dev/") device then partition_suffix device else none
        ])
          ≡ some n
        → head_word ws ≡ some b'/'
    go [] h = cc
    go (device ∷ ws) h = elim (Bool-cases (starts_with (lit "/dev/") device)) [
      | inl hit ↦ device_head device hit
      | inr miss ↦ let none_left = rw miss at h in cc
    ]

-- A number that is set behind a field leaves the first character of the line.
first_char-set_behind :
    (line before rest new : Text) (value : ℕ)
    → line ≡ before ++ (size_field ++ rest)
    → set_behind line size_field value (before, rest) ≡ ok new
    → first_char new ≡ first_char line
unfolding set_behind size_field lit is_whitespace
first_char-set_behind line before rest new value whole set =
    elim (Bool-cases (is_empty (take_while is_ascii_digit (trim_start is_whitespace rest)))) [
      | inl empty ↦ let refused = rw empty at set in cc
      | inr digits ↦
          let given = rw digits at set in
          rw (whole, ← ok-injective given) (first_char-append before b's' _ _ refl)
    ]

first_char-set_field_u64 :
    (line new : Text) (value : ℕ)
    → set_field_u64 line size_field value ≡ ok new
    → first_char new ≡ first_char line
unfolding set_field_u64
first_char-set_field_u64 line new value set = go (split_once_text size_field line) refl set
  where
    go :
        (parts : Option (Text × Text))
        → split_once_text size_field line ≡ parts
        → (elim parts [
          | none ↦ err (lit "missing " ++ (size_field ++ (lit " field: " ++ line)))
          | some p ↦ set_behind line size_field value p
        ])
          ≡ ok new
        → first_char new ≡ first_char line
    go none found given = cc
    go (some (before, rest)) found given =
        first_char-set_behind line before rest new value
          (split_first size_field line before rest (unfold size_field lit in refl) found).0 given

slash-begins : (line : Text) → first_char line ≡ some b'/' → begins last_lba_field line ≡ false
unfolding begins last_lba_field lit
slash-begins line h = go (trim_start is_whitespace line) h
  where
    go : (t : Text) → head t ≡ some b'/' → starts_with last_lba_field t ≡ false
    go [] h = cc
    go (c ∷ t) h = unfold starts_with in ground arith

-- The line of a partition with its size set is no `last-lba:` header.
pub begins-set_field_u64 :
    (line new : Text) (n value : ℕ)
    → partition_number line ≡ some n
    → set_field_u64 line size_field value ≡ ok new
    → begins last_lba_field new ≡ false
begins-set_field_u64 line new n value numbered set =
    slash-begins new
      (first_char-set_field_u64 line new value set ∙ first_char-partition_number line n numbered)
