-- ===== src/Base/Text/FirstChar.antt =====
-- The first character of a text that is no white space.
use Prim.Native.Nat.{ℕ}
use mathlib.Core.Path.{◌≡◌, refl}
use mathlib.Core.Bool.{Bool, false}
use mathlib.Core.List.{List, [], ◌∷◌, ◌++◌}
use mathlib.Core.Option.{Option, none, some}
use omnect_os_init.Base.Tests.{Bool-cases}
use omnect_os_init.Base.Text.{
  Text, is_whitespace, trim_start, split, cons_word, drop_empty, split_whitespace,
}
use mathlib.Core.Logic.{inl, inr}

abbrev pub head : Text → Option ℕ
head [] = none
head (c ∷ s) = some c

-- The first character of the first word.
abbrev pub head_word : List Text → Option ℕ
head_word [] = none
head_word (w ∷ ws) = head w

abbrev pub first_char : Text → Option ℕ
first_char s = head (trim_start is_whitespace s)

head_word-cons_word : (c : ℕ) (ws : List Text) → head_word (drop_empty (cons_word c ws)) ≡ some c
head_word-cons_word c [] = refl
head_word-cons_word c (w ∷ ws) = refl

head_word-split :
    (p : ℕ → Bool) (s : Text) → head_word (drop_empty (split p s)) ≡ head (trim_start p s)
unfolding split trim_start
head_word-split p [] = refl
head_word-split p (c ∷ s) = elim (Bool-cases (p c)) [
  | inl space ↦ rw space (head_word-split p s)
  | inr other ↦ rw other (head_word-cons_word c (split p s))
]

-- The first word begins with the first character that is no white space.
pub head_word-split_whitespace : (s : Text) → head_word (split_whitespace s) ≡ first_char s
unfolding split_whitespace
head_word-split_whitespace s = head_word-split is_whitespace s

-- It does not depend on what stands behind another character that is no white space.
pub first_char-append :
    (before : Text) (c : ℕ) (s t : Text)
    → is_whitespace c ≡ false
    → first_char (before ++ c ∷ s) ≡ first_char (before ++ c ∷ t)
unfolding trim_start
first_char-append [] c s t h = rw h refl
first_char-append (d ∷ before) c s t h = elim (Bool-cases (is_whitespace d)) [
  | inl space ↦ rw space (first_char-append before c s t h)
  | inr other ↦ rw other refl
]
