-- ===== src/Base/Text/Digits.antt =====
-- What the texts of numbers are made of, and parsing them back.
use Prim.Native.Nat.{ℕ, zero, suc, ◌<◌, ◌/◌, ◌^◌, ◌-◌}
use mathlib.Core.Path.{◌≡◌, refl, sym, ◌∙◌}
use mathlib.Core.Logic.{inl, inr}
use mathlib.Core.Bool.{Bool, true, not, ◌||◌}
use mathlib.Core.List.{[], ◌∷◌, ◌++◌}
use native.Mathlib.Omega.{arith}
use omnect_os_init.Base.Lists.{all}
use omnect_os_init.Base.Results.{ok}
use omnect_os_init.Base.Tests.{ltb, ◌==◌, Bool-cases}
use omnect_os_init.Base.Text.{Text, is_ascii_digit, is_whitespace, trim, trim_start, trim_end}
use omnect_os_init.Base.Text.Numbers.{
  ℤ, pos, negsuc, decimal, decimal_on, decimal_ℤ, parse_i32, parse_digits, parse_uint,
  parse_uint-decimal, parse_uint-eq-parse_digits, decimal-StartsWithDigit, StartsWithDigit,
}

all-append : (p : ℕ → Bool) (s t : Text) → all p s ≡ true → all p t ≡ true → all p (s ++ t) ≡ true
all-append p [] t h k = k
all-append p (c ∷ s) t h k = ground (arith, all-append p s t)

decimal_on-all : (f n : ℕ) → n < f → all is_ascii_digit (decimal_on f n) ≡ true
unfolding decimal_on is_ascii_digit
decimal_on-all zero n h = elim h [ ]
decimal_on-all (suc f) n h = elim (Bool-cases (ltb n 10)) [
  | inl small ↦ rw (small, decimal_on) (ground arith)
  | inr big ↦
      rw (big, decimal_on)
        (all-append is_ascii_digit (decimal_on f (n / 10)) _
          (decimal_on-all f (n / 10) (ground arith)) (ground arith))
]

-- A number is written in digits only.
pub decimal-all : (n : ℕ) → all is_ascii_digit (decimal n) ≡ true
unfolding decimal
decimal-all n = decimal_on-all (suc n) n (omega arith)

all-weaken :
    (p q : ℕ → Bool) (s : Text)
    → ((c : ℕ) → p c ≡ true → q c ≡ true)
    → all p s ≡ true
    → all q s ≡ true
all-weaken p q [] f h = refl
all-weaken p q (c ∷ s) f h = let at = f c in let rest = all-weaken p q s f in ground arith

-- A character of a number's text.
abbrev pub is_number_char : ℕ → Bool
is_number_char c = c == b'-' || is_ascii_digit c

pub decimal_ℤ-all : (z : ℤ) → all is_number_char (decimal_ℤ z) ≡ true
unfolding decimal_ℤ
decimal_ℤ-all (pos n) =
    all-weaken is_ascii_digit is_number_char (decimal n) (λ c h. ground arith) (decimal-all n)
decimal_ℤ-all (negsuc n) =
    all-weaken is_ascii_digit is_number_char (decimal (suc n)) (λ c h. ground arith)
      (decimal-all (suc n))

number_char-not_whitespace : (c : ℕ) → is_number_char c ≡ true → not (is_whitespace c) ≡ true
unfolding is_ascii_digit is_whitespace
number_char-not_whitespace c h = ground arith

trim_start-none : (p : ℕ → Bool) (s : Text) → all (λ c. not (p c)) s ≡ true → trim_start p s ≡ s
unfolding trim_start
trim_start-none p [] h = refl
trim_start-none p (c ∷ s) h = ground arith

trim_end-none : (p : ℕ → Bool) (s : Text) → all (λ c. not (p c)) s ≡ true → trim_end p s ≡ s
unfolding trim_end
trim_end-none p [] h = refl
trim_end-none p (c ∷ []) h = ground arith
trim_end-none p (c ∷ d ∷ s) h = rw (trim_end-none p (d ∷ s) (ground arith)) refl

-- Trimming leaves the text of a number as it is.
pub trim-decimal_ℤ : (z : ℤ) → trim (decimal_ℤ z) ≡ decimal_ℤ z
unfolding trim
trim-decimal_ℤ z =
    let none_white =
      all-weaken is_number_char (λ c. not (is_whitespace c)) (decimal_ℤ z)
        number_char-not_whitespace (decimal_ℤ-all z) in
    rw (trim_start-none is_whitespace (decimal_ℤ z) none_white)
      (trim_end-none is_whitespace (decimal_ℤ z) none_white)

-- A number that fits an `i32`.
abbrev pub IsI32 : ℤ → Type 0
IsI32 (pos n) = n < 2 ^ 31
IsI32 (negsuc n) = n < 2 ^ 31

parse_i32-pos :
    (s : Text) (n : ℕ)
    → StartsWithDigit s
    → parse_uint (2 ^ 31 - 1) s ≡ ok n
    → parse_i32 s ≡ ok (pos n)
unfolding parse_i32
parse_i32-pos [] n start h = absurd start
parse_i32-pos (c ∷ s) n start h = ground arith

parse_i32-negsuc :
    (s : Text) (n : ℕ)
    → StartsWithDigit s
    → parse_digits (2 ^ 31) 0 s ≡ ok (suc n)
    → parse_i32 (b'-' ∷ s) ≡ ok (negsuc n)
unfolding parse_i32
parse_i32-negsuc [] n start h = absurd start
parse_i32-negsuc (c ∷ s) n start h = rw h refl

-- `parse::<i32>` undoes `to_string`.
pub parse_i32-decimal_ℤ : (z : ℤ) → IsI32 z → parse_i32 (decimal_ℤ z) ≡ ok z
unfolding decimal_ℤ
parse_i32-decimal_ℤ (pos n) h =
    parse_i32-pos (decimal n) n (decimal-StartsWithDigit n)
      (parse_uint-decimal (2 ^ 31 - 1) n (omega arith))
parse_i32-decimal_ℤ (negsuc n) h =
    parse_i32-negsuc (decimal (suc n)) n (decimal-StartsWithDigit (suc n)) (
      sym (parse_uint-eq-parse_digits (2 ^ 31) (decimal (suc n)) (decimal-StartsWithDigit (suc n)))
      ∙ parse_uint-decimal (2 ^ 31) (suc n) (omega arith))
