-- ===== src/Base/Results.antt =====
-- Rust's `Result`, with the chaining that `?` writes.
use mathlib.Core.Path.{◌≡◌, refl, ap, subst}
use mathlib.Core.Logic.{◌⊎◌, inl, inr}
use mathlib.Core.Option.{Option, none, some}

pub data Result {ℓ} (E A : Type ℓ) : Type ℓ where
  ok : A → Result E A
  err : E → Result E A

-- `Result::map_err`
abbrev pub map_err {ℓ} : {E F A : Type ℓ} → (E → F) → Result E A → Result F A
map_err f (ok a) = ok a
map_err f (err e) = err (f e)

-- `Result::ok`
abbrev pub to_option {ℓ} : {E A : Type ℓ} → Result E A → Option A
to_option (ok a) = some a
to_option (err e) = none

-- `Option::ok_or`
abbrev pub ok_or {ℓ} : {E A : Type ℓ} → Option A → E → Result E A
ok_or none e = err e
ok_or (some a) e = ok a

module _ {ℓ} {E A B : Type ℓ} where
  infixl 5 ◌>>=◌ ◌>>◌
  -- The rest of a function behind a `?`.
  abbrev pub ◌>>=◌ : Result E A → (A → Result E B) → Result E B
  ◌>>=◌ (err failure) rest = err failure
  ◌>>=◌ (ok value) rest = rest value

  abbrev pub ◌>>◌ : Result E A → Result E B → Result E B
  first >> second = first >>= (λ _. second)

  -- A chain that succeeds passed through a value of its first part.
  pub >>=-eq-ok :
      (r : Result E A) (rest : A → Result E B) {last : B}
      → (r >>= rest) ≡ ok last
      → (value : A) × (r ≡ ok value) × (rest value ≡ ok last)
  >>=-eq-ok (err failure) rest same = cc
  >>=-eq-ok (ok value) rest same = (value, refl, same)

pub Result-cases {ℓ} :
    {E A : Type ℓ} (r : Result E A) → ((a : A) × (r ≡ ok a)) ⊎ ((e : E) × (r ≡ err e))
Result-cases (ok a) = inl (a, refl)
Result-cases (err e) = inr (e, refl)

abbrev error_or {ℓ} : {E A : Type ℓ} → E → Result E A → E
error_or d (ok a) = d
error_or d (err e) = e

pub err-injective {ℓ} : {E A : Type ℓ} {e e' : E} → ◌≡◌ {A = Result E A} (err e) (err e') → e ≡ e'
err-injective {e} h = ap (error_or e) h

abbrev value_or {ℓ} : {E A : Type ℓ} → A → Result E A → A
value_or d (ok a) = a
value_or d (err e) = d

pub ok-injective {ℓ} : {E A : Type ℓ} {a a' : A} → ◌≡◌ {A = Result E A} (ok a) (ok a') → a ≡ a'
ok-injective {a} h = ap (value_or a) h

-- What holds of the value of a success.
pub record OkGives {E A : Type 0} (P : A → Type 0) (m : Result E A) : Type 0 where
  pub each : (a : A) → m ≡ ok a → P a

pub OkGives-ok : {E A : Type 0} {P : A → Type 0} {a : A} → P a → OkGives {E = E} P (ok a)
OkGives-ok {P} h = record { each = λ b same. subst P (ok-injective same) h }

pub OkGives-bind :
    {E A B : Type 0} {P : B → Type 0} (m : Result E A) {f : A → Result E B}
    → ((a : A) → m ≡ ok a → OkGives P (f a))
    → OkGives P (m >>= f)
OkGives-bind m {f} h = record {
  each = λ b same. let (a, found, rest) = >>=-eq-ok m f same in (h a found).each b rest;
}

pub OkGives-map_err :
    {E F A : Type 0} {P : A → Type 0} (f : E → F) (m : Result E A)
    → OkGives P m
    → OkGives P (map_err f m)
OkGives-map_err f (ok a) h = record { each = λ b same. h.each b (ap ok (ok-injective same)) }
OkGives-map_err f (err e) h = record { each = λ b same. cc }
