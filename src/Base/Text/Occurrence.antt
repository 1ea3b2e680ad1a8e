-- ===== src/Base/Text/Occurrence.antt =====
-- The first occurrence of a text in another one, and the characters in front of it.
use Prim.Native.Nat.{ℕ, suc, ◌≤◌}
use mathlib.Core.Path.{◌≡◌, refl, sym, ap, ◌∙◌}
use mathlib.Core.Logic.{inl, inr}
use mathlib.Core.Bool.{Bool, true, false, ◌&&◌}
use mathlib.Core.List.{[], ◌∷◌, ◌++◌, append_assoc}
use mathlib.Core.Option.{Option, none, some}
use native.Mathlib.Omega.{arith}
use omnect_os_init.Base.Lists.{all, drop, length, length-append}
use omnect_os_init.Base.Tests.{◌==◌, Bool-cases}
use omnect_os_init.Base.Text.{
  Text, is_empty, trim_start, starts_with, split_once_text, take_while, cons_first,
}

starts_with-drop : (p s : Text) → starts_with p s ≡ true → p ++ drop (length p) s ≡ s
unfolding starts_with
starts_with-drop [] s h = refl
starts_with-drop (a ∷ p) [] h = cc
starts_with-drop (a ∷ p) (c ∷ s) h =
    let e : a ≡ c = ground arith in
    let rest : starts_with p s ≡ true = ground arith in rw (e, starts_with-drop p s rest) refl

starts_with-append : (p s : Text) → starts_with p (p ++ s) ≡ true
unfolding starts_with
starts_with-append [] s = refl
starts_with-append (a ∷ p) s = ground (arith, starts_with-append p s)

drop-append : (p s : Text) → drop (length p) (p ++ s) ≡ s
drop-append [] s = refl
drop-append (a ∷ p) s = drop-append p s

-- Whether a text begins with another one is decided by so many of its characters.
starts_with-prefix :
    (p a s t : Text) → length p ≤ length a → starts_with p (a ++ s) ≡ starts_with p (a ++ t)
unfolding starts_with
starts_with-prefix [] a s t h = refl
starts_with-prefix (b ∷ p) [] s t h = ground arith
starts_with-prefix (b ∷ p) (c ∷ a) s t h =
    ap (λ u. (b == c) && u) (starts_with-prefix p a s t (omega arith))

abbrev pub Splits : (part line before rest : Text) → Type 0
Splits part line before rest =
    (line ≡ before ++ (part ++ rest))
    × ((other : Text) → split_once_text part (before ++ (part ++ other)) ≡ some (before, other))

split_here :
    (part line before rest : Text)
    → is_empty part ≡ false
    → starts_with part line ≡ true
    → [] ≡ before
    → drop (length part) line ≡ rest
    → Splits part line before rest
unfolding split_once_text
split_here [] line before rest filled hit h k = cc
split_here (a ∷ p) line before rest filled hit h k =
    rw (← h, ← k)
      (
        sym (starts_with-drop (a ∷ p) line hit),
        λ other.
            rw (starts_with-append (a ∷ p) other) (ap (λ t. some ([], t)) (drop-append p other)),
      )

split_later :
    (c : ℕ) (part line before rest : Text)
    → starts_with part (c ∷ line) ≡ false
    → Splits part line before rest
    → Splits part (c ∷ line) (c ∷ before) rest
unfolding split_once_text
split_later c part line before rest miss (whole, again) = (
  ap (λ t. c ∷ t) whole,
  λ other.
      let same : starts_with part (c ∷ (before ++ (part ++ other))) ≡ false =
        ap (λ t. starts_with part (c ∷ t)) (sym (append_assoc before part other))
        ∙ starts_with-prefix part (c ∷ (before ++ part)) other rest (longer before part)
        ∙ ap (λ t. starts_with part (c ∷ t)) (append_assoc before part rest ∙ sym whole)
        ∙ miss in
      rw (same, again other) refl,
)
  where
    longer : (a b : Text) → length b ≤ suc (length (a ++ b))
    longer a b = omega (arith, length-append a b)

-- The first occurrence of a part stays the first one when what stands behind it changes.
pub split_first :
    (part line before rest : Text)
    → is_empty part ≡ false
    → split_once_text part line ≡ some (before, rest)
    → Splits part line before rest
unfolding split_once_text
split_first [] line before rest filled h = cc
split_first (a ∷ p) [] before rest filled h = cc
split_first (a ∷ p) (c ∷ line) before rest filled h =
    elim (Bool-cases (starts_with (a ∷ p) (c ∷ line))) [
      | inl hit ↦
          let here = rw hit at h in
          let first : [] ≡ before = cc in
          let last : drop (length (a ∷ p)) (c ∷ line) ≡ rest = cc in
          split_here (a ∷ p) (c ∷ line) before rest filled hit first last
      | inr miss ↦
          behind miss (split_once_text (a ∷ p) line) (split_first (a ∷ p) line) refl (rw miss at h)
    ]
  where
    behind :
        starts_with (a ∷ p) (c ∷ line) ≡ false
        → (found : Option (Text × Text))
        → ((b r : Text)
            → is_empty (a ∷ p) ≡ false
            → split_once_text (a ∷ p) line ≡ some (b, r)
            → Splits (a ∷ p) line b r)
        → split_once_text (a ∷ p) line ≡ found
        → cons_first c found ≡ some (before, rest)
        → Splits (a ∷ p) (c ∷ line) before rest
    behind miss none ih found k = cc
    behind miss (some (b, r)) ih found k =
        let first : c ∷ b ≡ before = cc in
        let last : r ≡ rest = cc in
        rw (← first, ← last) (split_later c (a ∷ p) line b r miss (ih b r filled found))

pub take_while-append :
    (p : ℕ → Bool) (s t : Text) → all p s ≡ true → take_while p (s ++ t) ≡ s ++ take_while p t
unfolding take_while
take_while-append p [] t h = refl
take_while-append p (c ∷ s) t h =
    let at : p c ≡ true = ground arith in
    let below : all p s ≡ true = ground arith in rw (at, take_while-append p s t below) refl

pub all-take_while : (p : ℕ → Bool) (s : Text) → all p (take_while p s) ≡ true
unfolding take_while
all-take_while p [] = refl
all-take_while p (c ∷ s) = ground (arith, all-take_while p s)

pub trim_start-append :
    (p : ℕ → Bool) (s t : Text) → all p s ≡ true → trim_start p (s ++ t) ≡ trim_start p t
unfolding trim_start
trim_start-append p [] t h = refl
trim_start-append p (c ∷ s) t h =
    let at : p c ≡ true = ground arith in
    let below : all p s ≡ true = ground arith in rw at (trim_start-append p s t below)

pub all-implies :
    (p q : ℕ → Bool) (s : Text)
    → ((c : ℕ) → p c ≡ true → q c ≡ true)
    → all p s ≡ true
    → all q s ≡ true
all-implies p q [] f h = refl
all-implies p q (c ∷ s) f h = let at = f c in let below = all-implies p q s f in ground arith
