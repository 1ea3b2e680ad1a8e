-- ===== src/Base/Exec.antt =====
-- Fallible operations on a state. What was written before an error stays written, so the state
-- comes back beside the error too.
use omnect_os_init.Base.{◌≡◌, refl, subst, Result, ok, err, ok-injective, ◌⊎◌, inl, inr}

abbrev pub Exec : Type 0 → Type 0 → Type 0 → Type 0
Exec E S A = S → Result E A × S

unfoldable pub pure : {E S A : Type 0} → A → Exec E S A
pure a s = (ok a, s)

unfoldable pub raise : {E S A : Type 0} → E → Exec E S A
raise e s = (err e, s)

unfoldable pub lift : {E S A : Type 0} → Result E A → Exec E S A
lift r s = (r, s)

abbrev pub continue : {E S A B : Type 0} → (A → Exec E S B) → Result E A × S → Result E B × S
continue f (ok a, s) = f a s
continue f (err e, s) = (err e, s)

infixl 5 ◌>>=◌ ◌>>◌
-- Opening this opens `pure`, `raise` and `lift` too.
unfoldable pub ◌>>=◌ : {E S A B : Type 0} → Exec E S A → (A → Exec E S B) → Exec E S B
unfolding pure raise lift
◌>>=◌ m f s = continue f (m s)

abbrev pub ◌>>◌ : {E S A B : Type 0} → Exec E S A → Exec E S B → Exec E S B
m >> k = m >>= λ _. k

abbrev pub with_error : {E F S A : Type 0} → (E → F) → Result E A × S → Result F A × S
with_error f (ok a, s) = (ok a, s)
with_error f (err e, s) = (err (f e), s)

-- `map_err` behind an operation
unfoldable pub map_error : {E F S A : Type 0} → (E → F) → Exec E S A → Exec F S A
map_error f m s = with_error f (m s)

abbrev pub beside : {E S T A : Type 0} → T → Result E A × S → Result E A × (T × S)
beside t (r, s) = (r, (t, s))

-- An operation on the second part of a state.
unfoldable pub on_second : {E S T A : Type 0} → Exec E S A → Exec E (T × S) A
on_second m (t, s) = beside t (m s)

-- Inversion of a chain that fails: its first part fails, or the rest does.
pub continue-eq-err :
    {E S A B : Type 0} (f : A → Exec E S B) (p : Result E A × S) {e : E}
    → (continue f p).0 ≡ err e
    → (p.0 ≡ err e) ⊎ ((a : A) × (s : S) × (p ≡ (ok a, s)) × ((f a s).0 ≡ err e))
continue-eq-err f (ok a, s) h = inr (a, s, refl, h)
continue-eq-err f (err e', s) h = inl (cc)

-- Inversion of a chain that succeeds.
pub continue-eq-ok :
    {E S A B : Type 0} (f : A → Exec E S B) (p : Result E A × S) {b : B}
    → (continue f p).0 ≡ ok b
    → (a : A) × (s : S) × (p ≡ (ok a, s)) × ((f a s).0 ≡ ok b)
continue-eq-ok f (ok a, s) h = (a, s, refl, h)
continue-eq-ok f (err e, s) h = cc

pub with_error-eq-err :
    {E F S A : Type 0} (f : E → F) (p : Result E A × S) {e : F}
    → (with_error f p).0 ≡ err e
    → (x : E) × (e ≡ f x)
with_error-eq-err f (ok a, s) h = cc
with_error-eq-err f (err x, s) h = (x, cc)

-- An operation on the first part of a state.
abbrev pub behind : {E S T A : Type 0} → T → Result E A × S → Result E A × (S × T)
behind t (r, s) = (r, (s, t))

unfoldable pub on_first : {E S T A : Type 0} → Exec E S A → Exec E (S × T) A
on_first m (s, t) = behind t (m s)

-- What holds of an outcome: `Q` of the value and the state, or `F` of the state that an error
-- leaves.
abbrev pub Ensures : {E S A : Type 0} → (A → S → Type 0) → (S → Type 0) → Result E A × S → Type 0
Ensures Q F (ok a, s) = Q a s
Ensures Q F (err e, s) = F s

-- The rule of a chain.
pub continue-Ensures :
    {E S A B : Type 0} (Q : A → S → Type 0) (R : B → S → Type 0) (F : S → Type 0)
    (f : A → Exec E S B) (p : Result E A × S)
    → Ensures Q F p
    → ((a : A) (s : S) → Q a s → Ensures R F (f a s))
    → Ensures R F (continue f p)
continue-Ensures Q R F f (ok a, s) h rest = rest a s h
continue-Ensures Q R F f (err e, s) h rest = h

pub Ensures-weaken :
    {E S A : Type 0} (Q R : A → S → Type 0) (F G : S → Type 0) (p : Result E A × S)
    → ((a : A) (s : S) → Q a s → R a s)
    → ((s : S) → F s → G s)
    → Ensures Q F p
    → Ensures R G p
Ensures-weaken Q R F G (ok a, s) q f h = q a s h
Ensures-weaken Q R F G (err e, s) q f h = f s h

-- What holds of the state however an operation ends.
pub Ensures-state :
    {E S A : Type 0} (F : S → Type 0) (p : Result E A × S) → Ensures (λ _. F) F p → F p.1
Ensures-state F (ok a, s) h = h
Ensures-state F (err e, s) h = h

pub Ensures-ok :
    {E S A : Type 0} (Q : A → S → Type 0) (F : S → Type 0) (p : Result E A × S) (a : A)
    → Ensures Q F p
    → p.0 ≡ ok a
    → Q a p.1
Ensures-ok Q F (ok b, s) a h same = subst (λ x. Q x s) (ok-injective same) h
Ensures-ok Q F (err e, s) a h same = cc

-- What holds of every value that an operation gives.
pub record Yields {E S A : Type 0} (P : A → Type 0) (m : Exec E S A) : Type 0 where
  pub of : (s : S) (a : A) → (m s).0 ≡ ok a → P a

pub Yields-pure :
    {E S A : Type 0} {P : A → Type 0} (a : A) → P a → Yields {E = E} {S = S} P (pure a)
unfolding pure
Yields-pure {P} a h = record { of = λ s b same. subst P (ok-injective same) h }

pub Yields-bind :
    {E S A B : Type 0} {P : B → Type 0} (m : Exec E S A) (f : A → Exec E S B)
    → ((a : A) → Yields P (f a))
    → Yields P (m >>= f)
unfolding ◌>>=◌
Yields-bind m f h = record {
  of = λ s b same. let (a, s', found, rest) = continue-eq-ok f (m s) same in (h a).of s' b rest;
}
