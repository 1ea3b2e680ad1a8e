-- ===== src/Mode/Flash/Sfdisk/Fields.antt =====
-- The fields of a dump line of src/mode/flash/sfdisk.rs: what is set is what is read.
use mathlib.Core.List.{append-nil}
use omnect_os_init.Base.{
  ◌≡◌, refl, ap, subst, ◌∙◌, ℕ, Bool, true, false, not, [], ◌∷◌, ◌++◌, Option, none, some, ok, err,
  all, ◌==◌, ◌≤◌, arith, Bool-cases, inl, inr, ok-injective,
}
use omnect_os_init.Base.Text.{
  Text, lit, is_empty, is_whitespace, is_ascii_digit, trim, trim_start, split_once_text, take_while,
  trim_end,
}
use omnect_os_init.Base.Text.Digits.{decimal-all, trim-decimal_ℤ}
use omnect_os_init.Base.Text.Numbers.{decimal, decimal_ℤ, pos, u64_max, parse_uint-decimal}
use omnect_os_init.Mode.Flash.Sfdisk.{
  field_value, number_of, parse_field_u64, set_behind, set_field_u64,
}
use omnect_os_init.Base.Text.Occurrence.{
  split_first, take_while-append, all-take_while, trim_start-append, all-implies,
}

abbrev not_comma : ℕ → Bool
not_comma c = not (c == b',')

digit-not_comma : (c : ℕ) → is_ascii_digit c ≡ true → not_comma c ≡ true
unfolding is_ascii_digit
digit-not_comma c h = ground arith

space-not_comma : (c : ℕ) → is_whitespace c ≡ true → not_comma c ≡ true
unfolding is_whitespace
space-not_comma c h = ground arith

-- A text that is empty or begins with a comma.
abbrev pub AtEnd : Text → Type 0
AtEnd [] = Unit
AtEnd (c ∷ s) = c ≡ b','

take_while-AtEnd : (s : Text) → AtEnd s → take_while not_comma s ≡ []
unfolding take_while
take_while-AtEnd [] h = refl
take_while-AtEnd (c ∷ s) h = ground arith

-- The value behind a field whose number was set.
value_set :
    (ws tail : Text) (value : ℕ)
    → all is_whitespace ws ≡ true
    → AtEnd tail
    → trim (take_while not_comma (ws ++ (decimal value ++ tail))) ≡ decimal value
unfolding trim decimal_ℤ
value_set ws tail value spaces end =
    let in_number =
      all-implies is_ascii_digit not_comma (decimal value) digit-not_comma (decimal-all value) in
    let in_spaces = all-implies is_whitespace not_comma ws space-not_comma spaces in
    ap trim (
      take_while-append not_comma ws (decimal value ++ tail) in_spaces
      ∙ ap (λ t. ws ++ t)
          (take_while-append not_comma (decimal value) tail in_number
            ∙ ap (λ t. decimal value ++ t) (take_while-AtEnd tail end)
            ∙ append-nil (decimal value)))
    ∙ ap (λ t. trim_end is_whitespace t) (trim_start-append is_whitespace ws (decimal value) spaces)
    ∙ trim-decimal_ℤ (pos value)

-- The number behind a field ends at a comma or at the end of the line.
abbrev pub EndsNumber : Option (Text × Text) → Type 0
EndsNumber none = Unit
EndsNumber (some (before, rest)) = AtEnd (trim_start is_ascii_digit (trim_start is_whitespace rest))

value_behind :
    (line field before after : Text)
    → split_once_text field line ≡ some (before, after)
    → field_value line field ≡ some (trim (take_while not_comma after))
unfolding field_value
value_behind line field before after h = rw (field_value, h) refl

parse_value :
    (line field : Text) (value : ℕ)
    → value ≤ u64_max
    → field_value line field ≡ some (decimal value)
    → parse_field_u64 line field ≡ ok value
unfolding parse_field_u64 number_of
parse_value line field value fits h =
    rw (parse_field_u64, number_of, h, parse_uint-decimal u64_max value fits) refl

parse_set_behind :
    (line field before rest new : Text) (value : ℕ)
    → value ≤ u64_max
    → ((other : Text) → split_once_text field (before ++ (field ++ other)) ≡ some (before, other))
    → EndsNumber (some (before, rest))
    → set_behind line field value (before, rest) ≡ ok new
    → parse_field_u64 new field ≡ ok value
unfolding set_behind
parse_set_behind line field before rest new value fits again end set =
    let ws = take_while is_whitespace rest in
    let tail = trim_start is_ascii_digit (trim_start is_whitespace rest) in
    elim (Bool-cases (is_empty (take_while is_ascii_digit (trim_start is_whitespace rest)))) [
      | inl empty ↦ let refused = rw empty at set in cc
      | inr digits ↦
          let given = rw digits at set in
          let e : before ++ (field ++ (ws ++ (decimal value ++ tail))) ≡ new = ok-injective given in
          subst (λ t. parse_field_u64 t field ≡ ok value) e
            (parse_value _ field value fits (
              value_behind _ field before (ws ++ (decimal value ++ tail))
                (again (ws ++ (decimal value ++ tail)))
              ∙ ap some (value_set ws tail value (all-take_while is_whitespace rest) end)))
    ]

-- A number that is set in a field of a dump line is the number that is read from the field, for a
-- number that fits 64 bits and a line in which the number of the field ends at a comma or at the end
-- of the line.
pub parse_field_u64-set_field_u64 :
    (line field new : Text) (value : ℕ)
    → is_empty field ≡ false
    → value ≤ u64_max
    → EndsNumber (split_once_text field line)
    → set_field_u64 line field value ≡ ok new
    → parse_field_u64 new field ≡ ok value
unfolding set_field_u64
parse_field_u64-set_field_u64 line field new value filled fits end set =
    go (split_once_text field line) refl end set
  where
    go :
        (parts : Option (Text × Text))
        → split_once_text field line ≡ parts
        → EndsNumber parts
        → (elim parts [
          | none ↦ err (lit "missing " ++ (field ++ (lit " field: " ++ line)))
          | some p ↦ set_behind line field value p
        ])
          ≡ ok new
        → parse_field_u64 new field ≡ ok value
    go none found ends given = cc
    go (some (before, rest)) found ends given =
        parse_set_behind line field before rest new value fits
          (split_first field line before rest filled found).1 ends given
