-- ===== src/Base/Text/Numbers.antt =====
-- Decimal numbers as text: `to_string` and `parse` of Rust's unsigned and signed integers.
use Prim.Native.Nat.{ℕ, zero, suc, ◌+◌, ◌-◌, ◌*◌, ◌/◌, ◌%◌, ◌^◌, ◌≤◌, ◌<◌}
use mathlib.Core.Path.{◌≡◌, ap, ◌∙◌}
use mathlib.Core.Logic.{inl, inr}
use mathlib.Core.Bool.{true, false}
use mathlib.Core.List.{[], ◌∷◌, ◌++◌}
use native.Mathlib.Omega.{arith}
use omnect_os_init.Base.Tests.{ltb, ◌==◌, if◌then◌else◌, Bool-cases}
use omnect_os_init.Base.Results.{Result, ok, err, ◌>>=◌}
use omnect_os_init.Base.Text.{Text, lit, is_ascii_digit, is_empty}

-- `negsuc n` is -(n + 1).
pub data ℤ : Type 0 where
  pos : ℕ → ℤ
  negsuc : ℕ → ℤ

abbrev pub u32_max : ℕ
u32_max = 2 ^ 32 - 1

abbrev pub u64_max : ℕ
u64_max = 2 ^ 64 - 1

-- `std::num::IntErrorKind`
pub data IntErrorKind : Type 0 where
  empty invalid_digit pos_overflow neg_overflow : IntErrorKind

-- The messages of `ParseIntError`.
unfoldable pub int_error_text : IntErrorKind → Text
int_error_text empty = lit "cannot parse integer from empty string"
int_error_text invalid_digit = lit "invalid digit found in string"
int_error_text pos_overflow = lit "number too large to fit in target type"
int_error_text neg_overflow = lit "number too small to fit in target type"

abbrev pub digit_step : ℕ → ℕ → ℕ
digit_step acc c = acc * 10 + (c - 48)

-- The digits are read from the left; the first bad or overflowing one decides the error.
unfoldable pub parse_digits : ℕ → ℕ → Text → Result IntErrorKind ℕ
unfolding is_ascii_digit
parse_digits limit acc [] = ok acc
parse_digits limit acc (c ∷ s) =
    let rest = parse_digits limit (digit_step acc c) s in
    if is_ascii_digit c
    then (if ltb limit (digit_step acc c) then err pos_overflow else rest)
    else err invalid_digit

-- `parse` into an unsigned integer of which `limit` is the largest value.
unfoldable pub parse_uint : ℕ → Text → Result IntErrorKind ℕ
unfolding parse_digits
parse_uint limit [] = err empty
parse_uint limit (c ∷ s) =
    if c == b'+'
    then (if is_empty s then err invalid_digit else parse_digits limit 0 s)
    else parse_digits limit 0 (c ∷ s)

abbrev pub negate : ℕ → ℤ
negate zero = pos 0
negate (suc n) = negsuc n

abbrev negated : Result IntErrorKind ℕ → Result IntErrorKind ℤ
negated (ok n) = ok (negate n)
negated (err pos_overflow) = err neg_overflow
negated (err e) = err e

-- `parse::<i32>`
unfoldable pub parse_i32 : Text → Result IntErrorKind ℤ
unfolding parse_uint
parse_i32 [] = err empty
parse_i32 (c ∷ s) =
    if c == b'-'
    then (if is_empty s then err invalid_digit else negated (parse_digits (2 ^ 31) 0 s))
    else (do n ← parse_uint (2 ^ 31 - 1) (c ∷ s); ok (pos n))

-- The digits of `n`, on fuel above `n`.
unfoldable pub decimal_on : ℕ → ℕ → Text
decimal_on zero n = []
decimal_on (suc f) n = elim (ltb n 10) [
  | true ↦ (48 + n) ∷ []
  | false ↦ decimal_on f (n / 10) ++ (48 + n % 10) ∷ []
]

-- `to_string` of an unsigned integer
unfoldable pub decimal : ℕ → Text
unfolding decimal_on
decimal n = decimal_on (suc n) n

-- `to_string` of a signed integer
unfoldable pub decimal_ℤ : ℤ → Text
unfolding decimal
decimal_ℤ (pos n) = decimal n
decimal_ℤ (negsuc n) = b'-' ∷ decimal (suc n)

-- A digit added to a text that parses.
parse_digits-append :
    (limit acc : ℕ) (s : Text) (m d : ℕ)
    → parse_digits limit acc s ≡ ok m
    → d < 10
    → m * 10 + d ≤ limit
    → parse_digits limit acc (s ++ (48 + d) ∷ []) ≡ ok (m * 10 + d)
unfolding parse_digits
parse_digits-append limit acc [] m d h p q = ground arith
parse_digits-append limit acc (c ∷ s) m d h p q =
    ground (arith, parse_digits-append limit (digit_step acc c) s m d)

parse_digits-decimal_on :
    (limit f n : ℕ) → n < f → n ≤ limit → parse_digits limit 0 (decimal_on f n) ≡ ok n
unfolding decimal_on
parse_digits-decimal_on limit zero n h q = elim h [ ]
parse_digits-decimal_on limit (suc f) n h q = elim (Bool-cases (ltb n 10)) [
  | inl small ↦ rw (small, decimal_on) (unfold parse_digits in ground arith)
  | inr big ↦
      rw (big, decimal_on)
        (parse_digits-append limit 0 (decimal_on f (n / 10)) (n / 10) (n % 10)
            (parse_digits-decimal_on limit f (n / 10) (ground arith) (omega arith)) (omega arith)
            (omega arith)
          ∙ ap ok (omega arith))
]

-- What a decimal text begins with.
abbrev pub StartsWithDigit : Text → Type 0
StartsWithDigit [] = ⊥
StartsWithDigit (c ∷ s) = (48 ≤ c) × (c ≤ 57)

StartsWithDigit-append : (s t : Text) → StartsWithDigit s → StartsWithDigit (s ++ t)
StartsWithDigit-append [] t h = absurd h
StartsWithDigit-append (c ∷ s) t h = h

decimal_on-StartsWithDigit : (f n : ℕ) → n < f → StartsWithDigit (decimal_on f n)
unfolding decimal_on
decimal_on-StartsWithDigit zero n h = elim h [ ]
decimal_on-StartsWithDigit (suc f) n h = elim (Bool-cases (ltb n 10)) [
  | inl small ↦ rw (small, decimal_on) (ground arith)
  | inr big ↦
      rw (big, decimal_on)
        (StartsWithDigit-append _ _ (decimal_on-StartsWithDigit f (n / 10) (ground arith)))
]

pub decimal-StartsWithDigit : (n : ℕ) → StartsWithDigit (decimal n)
unfolding decimal
decimal-StartsWithDigit n = decimal_on-StartsWithDigit (suc n) n (omega arith)

-- `parse` undoes `to_string`.
pub parse_uint-eq-parse_digits :
    (limit : ℕ) (s : Text) → StartsWithDigit s → parse_uint limit s ≡ parse_digits limit 0 s
unfolding parse_uint
parse_uint-eq-parse_digits limit [] h = absurd h
parse_uint-eq-parse_digits limit (c ∷ s) h = ground arith

pub parse_uint-decimal : (limit n : ℕ) → n ≤ limit → parse_uint limit (decimal n) ≡ ok n
parse_uint-decimal limit n h =
    parse_uint-eq-parse_digits limit (decimal n) (decimal-StartsWithDigit n)
    ∙ unfold decimal in parse_digits-decimal_on limit (suc n) n (omega arith) h

-- What parses is in range.
pub parse_digits-le :
    (limit acc : ℕ) (s : Text) (n : ℕ) → acc ≤ limit → parse_digits limit acc s ≡ ok n → n ≤ limit
unfolding parse_digits
parse_digits-le limit acc [] n b h = ground arith
parse_digits-le limit acc (c ∷ s) n b h =
    ground (arith, parse_digits-le limit (digit_step acc c) s n)

pub parse_uint-le : (limit : ℕ) (s : Text) (n : ℕ) → parse_uint limit s ≡ ok n → n ≤ limit
unfolding parse_uint
parse_uint-le limit [] n h = cc
parse_uint-le limit (c ∷ s) n h =
    ground (arith, parse_digits-le limit 0 s n, parse_digits-le limit 0 (c ∷ s) n)
