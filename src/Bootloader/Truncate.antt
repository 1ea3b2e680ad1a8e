-- ===== src/Bootloader/Truncate.antt =====
-- `truncate_on_char_boundary` of src/bootloader/mod.rs, over the UTF-8 bytes of a text.
use omnect_os_init.Base.{
  ℕ, zero, suc, ◌+◌, ◌-◌, ◌≤◌, ◌≡◌, refl, Bool, true, false, ◌&&◌, ◌||◌, [], ◌∷◌, Option, none,
  some, arith, ltb, leb, ◌==◌, if◌then◌else◌, Bool-cases, inl, inr,
}
use omnect_os_init.Base.Text.{Text}

-- The bytes of a character in UTF-8.
unfoldable pub utf8_len : ℕ → ℕ
utf8_len c = if ltb c 0x80 then 1 else if ltb c 0x800 then 2 else if ltb c 0x10000 then 3 else 4

-- `str::len`
unfoldable pub byte_len : Text → ℕ
byte_len [] = 0
byte_len (c ∷ s) = utf8_len c + byte_len s

-- `str::is_char_boundary`
unfoldable pub is_char_boundary : Text → ℕ → Bool
is_char_boundary [] i = i == 0
is_char_boundary (c ∷ s) i = i == 0 || (leb (utf8_len c) i && is_char_boundary s (i - utf8_len c))

abbrev cons_in : ℕ → Option Text → Option Text
cons_in c none = none
cons_in c (some s) = some (c ∷ s)

-- `&s[..end]`: nothing where Rust panics, off a character boundary or behind the end.
unfoldable pub slice_to : Text → ℕ → Option Text
slice_to [] zero = some []
slice_to [] (suc e) = none
slice_to (c ∷ s) e =
    let rest = slice_to s (e - utf8_len c) in
    if e == 0 then some [] else if ltb e (utf8_len c) then none else cons_in c rest

-- `while end > 0 && !s.is_char_boundary(end) { end -= 1 }`
unfoldable pub boundary_below : Text → ℕ → ℕ
unfolding is_char_boundary
boundary_below s zero = zero
boundary_below s (suc e) =
    let lower = boundary_below s e in if is_char_boundary s (suc e) then suc e else lower

-- Nothing stands for a panic.
unfoldable pub truncate_on_char_boundary : Text → ℕ → Option Text
unfolding byte_len boundary_below slice_to
truncate_on_char_boundary s max_bytes =
    if leb (byte_len s) max_bytes then some s else slice_to s (boundary_below s max_bytes)

-- The longest prefix whose bytes fit.
abbrev pub fitting : Text → ℕ → Text
fitting [] m = []
fitting (c ∷ s) m =
    let rest = fitting s (m - utf8_len c) in if leb (utf8_len c) m then c ∷ rest else []

pub utf8_len_bounds : (c : ℕ) → (1 ≤ utf8_len c) × (utf8_len c ≤ 4)
unfolding utf8_len
utf8_len_bounds c = ground arith

byte_len-fitting : (s : Text) (m : ℕ) → byte_len (fitting s m) ≤ m
unfolding byte_len
byte_len-fitting [] m = omega arith
byte_len-fitting (c ∷ s) m = ground (arith, byte_len-fitting s (m - utf8_len c))

fitting_all : (s : Text) (m : ℕ) → byte_len s ≤ m → fitting s m ≡ s
unfolding byte_len
fitting_all [] m h = refl
fitting_all (c ∷ s) m h = ground (arith, fitting_all s (m - utf8_len c))

-- The slice at a boundary is the part that fits there.
slice_to-eq-fitting :
    (s : Text) (e : ℕ) → is_char_boundary s e ≡ true → slice_to s e ≡ some (fitting s e)
unfolding slice_to is_char_boundary
slice_to-eq-fitting [] zero h = refl
slice_to-eq-fitting [] (suc e) h = ground arith
slice_to-eq-fitting (c ∷ s) e h =
    ground (arith, utf8_len_bounds c, slice_to-eq-fitting s (e - utf8_len c))

boundary_below-boundary : (s : Text) (e : ℕ) → is_char_boundary s (boundary_below s e) ≡ true
unfolding boundary_below
boundary_below-boundary [] zero = unfold is_char_boundary in refl
boundary_below-boundary (c ∷ s) zero = unfold is_char_boundary in ground arith
boundary_below-boundary s (suc e) = ground (arith, boundary_below-boundary s e)

-- Where no boundary lies, one byte less fits as much.
fitting_step :
    (s : Text) (e : ℕ) → is_char_boundary s (suc e) ≡ false → fitting s (suc e) ≡ fitting s e
unfolding is_char_boundary
fitting_step [] e h = refl
fitting_step (c ∷ s) e h = elim (Bool-cases (leb (utf8_len c) e)) [
  | inl fits ↦
      let more : suc e - utf8_len c ≡ suc (e - utf8_len c) = ground arith in
      ground (arith, more, fitting_step s (e - utf8_len c))
  | inr big ↦ ground (arith, zero_boundary s)
]
  where
    zero_boundary : (t : Text) → is_char_boundary t 0 ≡ true
    zero_boundary [] = ground arith
    zero_boundary (d ∷ t) = ground arith

fitting-boundary_below : (s : Text) (e : ℕ) → fitting s (boundary_below s e) ≡ fitting s e
unfolding boundary_below
fitting-boundary_below s zero = refl
fitting-boundary_below s (suc e) = ground (arith, fitting-boundary_below s e, fitting_step s e)

-- The truncation never panics, and gives the longest prefix whose bytes fit in `max_bytes`.
pub truncate_on_char_boundary_longest :
    (s : Text) (max_bytes : ℕ)
    → (truncate_on_char_boundary s max_bytes ≡ some (fitting s max_bytes))
      × (byte_len (fitting s max_bytes) ≤ max_bytes)
unfolding truncate_on_char_boundary
truncate_on_char_boundary_longest s m = (
  ground (
    arith,
    fitting_all s m,
    slice_to-eq-fitting s (boundary_below s m),
    boundary_below-boundary s m,
    fitting-boundary_below s m,
  ),
  byte_len-fitting s m,
)
