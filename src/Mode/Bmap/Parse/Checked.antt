-- ===== src/Mode/Bmap/Parse/Checked.antt =====
-- What a map that `Bmap::parse` of src/mode/flash/bmap/parse.rs accepts satisfies.
use omnect_os_init.Base.{
  ◌≡◌, refl, ℕ, Bool, true, false, ◌==◌, ◌+◌, ◌*◌, ◌/◌, ◌%◌, ◌≤◌, ◌<◌, arith, List, [], ◌∷◌, Result,
  ok, >>=-eq-ok, ok_or, ◌>>=◌, All, Bool-cases, inl, inr, subst, ◌≢◌,
}
use omnect_os_init.Base.Text.{Text}
use omnect_os_init.Mode.Bmap.{MappedRange, Bmap}
use omnect_os_init.Mode.Bmap.Gaps.{SortedFrom}
use omnect_os_init.Mode.Bmap.Parse.{
  XmlRange, XmlBmap, Libraries, refuse_if, block_span, checked, div_ceil, Progress, check_span,
  check_range, check_ranges, finish, check_head, sizes, body, parse,
}

-- A part of the image that is not empty.
abbrev pub IsInside : ℕ → MappedRange → Type 0
IsInside image_size r = (0 < r.bytes.len) × (r.bytes.offset + r.bytes.len ≤ image_size)

below-quotient : (a b n : ℕ) → 0 < b → n < a / b → n * b < a
below-quotient a b n positive h = grind arith

times-le : (a b c : ℕ) → a ≤ b → a * c ≤ b * c
times-le a b c h = grind arith

at-quotient : (a b n : ℕ) → 0 < b → ((a % b) == 0) ≡ false → n ≤ a / b → n * b < a
at-quotient a b n positive rest h = let m = times-le n (a / b) b h in grind arith

ok-injective : {E A : Type 0} {a b : A} → ◌≡◌ {A = Result E A} (ok a) (ok b) → a ≡ b
ok-injective h = cc

block-inside :
    (image_size block_size first last : ℕ)
    → 0 < block_size
    → first ≤ last
    → last < div_ceil image_size block_size
    → first * block_size < image_size
block-inside image_size block_size first last positive ordered inside =
    elim (Bool-cases ((image_size % block_size) == 0)) [
      | inl whole ↦ below-quotient image_size block_size first positive (ground arith)
      | inr partial ↦ at-quotient image_size block_size first positive partial (ground arith)
    ]

refuse_if-eq-ok : (b : Bool) (reason : Text) {u : Unit {0}} → refuse_if b reason ≡ ok u → b ≡ false
refuse_if-eq-ok true reason h = cc
refuse_if-eq-ok false reason h = refl

checked-eq-ok : (n : ℕ) (e : Text) {m : ℕ} → ok_or (checked n) e ≡ ok m → n ≡ m
checked-eq-ok n e h = ground arith

block_span-ordered : (text : Text) (p : ℕ × ℕ) → block_span text ≡ ok p → p.0 ≤ p.1
unfolding block_span
block_span-ordered text p h = ground arith

block-ends :
    (block_size first last : ℕ)
    → 0 < block_size
    → first ≤ last
    → first * block_size < (last + 1) * block_size
block-ends block_size first last positive h =
    let m = times-le first last block_size h in grind arith

module _ (l : Libraries) (image_size block_size blocks_count : ℕ) (positive : 0 < block_size)
    (count : blocks_count ≡ div_ceil image_size block_size) where
  check_span-IsInside :
      (p : Progress) (range : XmlRange) (first last : ℕ) (r : MappedRange × Progress)
      → first ≤ last
      → check_span l image_size block_size blocks_count p range (first, last) ≡ ok r
      → (p.next_free ≤ r.0.bytes.offset)
        × IsInside image_size r.0
        × (r.1.next_free ≡ r.0.bytes.offset + r.0.bytes.len)
  unfolding check_span
  check_span-IsInside p range first last r ordered h =
      let inside = block-inside image_size block_size first last positive ordered in
      let ends = block-ends block_size first last positive ordered in ground arith

  check_range-IsInside :
      (p : Progress) (range : XmlRange) (r : MappedRange × Progress)
      → check_range l image_size block_size blocks_count p range ≡ ok r
      → (p.next_free ≤ r.0.bytes.offset)
        × IsInside image_size r.0
        × (r.1.next_free ≡ r.0.bytes.offset + r.0.bytes.len)
  unfolding check_range
  check_range-IsInside p range r h =
      let (span, h1, h2) =
        >>=-eq-ok (block_span range.blocks)
          (check_span l image_size block_size blocks_count p range) h in
      check_span-IsInside p range span.0 span.1 r (block_span-ordered range.blocks span h1) h2

  check_ranges-IsInside :
      (p : Progress) (ranges : List XmlRange) (r : List MappedRange × Progress)
      → check_ranges l image_size block_size blocks_count p ranges ≡ ok r
      → SortedFrom p.next_free r.0 × All (IsInside image_size) r.0
  unfolding check_ranges
  check_ranges-IsInside p [] r h =
      subst (λ x. SortedFrom p.next_free x.0 × All (IsInside image_size) x.0) (ok-injective h)
        (tt, tt)
  check_ranges-IsInside p (range ∷ ranges) r h =
      let (x, h1, h2) =
        >>=-eq-ok (check_range l image_size block_size blocks_count p range)
          (λ x. check_ranges l image_size block_size blocks_count x.1 ranges >>= λ y.
            ok (x.0 ∷ y.0, y.1))
          h in
      let (y, h3, h4) =
        >>=-eq-ok (check_ranges l image_size block_size blocks_count x.1 ranges)
          (λ y. ok (x.0 ∷ y.0, y.1)) h2 in
      let (after, inside, next) = check_range-IsInside p range x h1 in
      let (sorted, rest) = check_ranges-IsInside x.1 ranges y h3 in
      subst (λ z. SortedFrom p.next_free z.0 × All (IsInside image_size) z.0) (ok-injective h4)
        ((after, subst (λ n. SortedFrom n y.0) next sorted), (inside, rest))

-- What the loop and the check of the number of blocks leave.
abbrev pub IsChecked : Bmap → Type 0
IsChecked bmap =
    SortedFrom 0 bmap.ranges × All (IsInside bmap.image_size) bmap.ranges × (bmap.ranges ≢ [])

module _ (l : Libraries) where
  sizes-positive :
      (xml : XmlBmap) (image_size block_size blocks_count : ℕ)
      → sizes l xml ≡ ok (image_size, block_size, blocks_count)
      → (0 < block_size) × (blocks_count ≡ div_ceil image_size block_size)
  unfolding sizes
  sizes-positive xml image_size block_size blocks_count h = ground arith

  finish-eq-ok :
      (image_size mapped : ℕ) (ranges : List MappedRange) (count : Text) (bmap : Bmap)
      → finish l image_size mapped ranges count ≡ ok bmap
      → (record { image_size = image_size; ranges = ranges } ≡ bmap) × (ranges ≢ [])
  unfolding finish
  finish-eq-ok image_size mapped [] count bmap h = cc
  finish-eq-ok image_size mapped (r ∷ rs) count bmap h = (ground arith, λ e. cc)

  body-IsChecked :
      (xml : XmlBmap) (image_size block_size blocks_count : ℕ) (bmap : Bmap)
      → 0 < block_size
      → blocks_count ≡ div_ceil image_size block_size
      → body l xml (image_size, block_size, blocks_count) ≡ ok bmap
      → IsChecked bmap
  unfolding body
  body-IsChecked xml image_size block_size blocks_count bmap positive count h =
      let start : Progress = record { mapped_blocks = 0; next_free = 0 } in
      let (x, h1, h2) =
        >>=-eq-ok (check_ranges l image_size block_size blocks_count start xml.ranges)
          (λ x. finish l image_size x.1.mapped_blocks x.0 xml.mapped_blocks_count) h in
      let (made, filled) =
        finish-eq-ok image_size x.1.mapped_blocks x.0 xml.mapped_blocks_count bmap h2 in
      let (sorted, inside) =
        check_ranges-IsInside l image_size block_size blocks_count positive count start xml.ranges x
          h1 in
      subst IsChecked made (sorted, inside, filled)

  -- A map that is accepted has ranges, and they are in order, do not overlap, are not empty and end
  -- inside the image.
  pub parse-IsChecked : (text : Text) (bmap : Bmap) → parse l text ≡ ok bmap → IsChecked bmap
  unfolding parse
  parse-IsChecked text bmap h =
      let (xml, h1, h2) =
        >>=-eq-ok (l.from_str text)
          (λ xml. check_head l text xml >>= λ _. sizes l xml >>= body l xml) h in
      let (u, h3, h4) = >>=-eq-ok (check_head l text xml) (λ _. sizes l xml >>= body l xml) h2 in
      let (s, h5, h6) = >>=-eq-ok (sizes l xml) (body l xml) h4 in
      let (positive, count) = sizes-positive xml s.0 s.1 s.2 h5 in
      body-IsChecked xml s.0 s.1 s.2 bmap positive count h6
