-- ===== src/Mode/Bmap/Gaps.antt =====
-- The gaps of a map as the complement of its ranges.
use omnect_os_init.Base.{
  ◌≡◌, refl, ◌∙◌, ℕ, Bool, true, false, not, ◌&&◌, ◌||◌, List, [], ◌∷◌, ◌++◌, if◌then◌else◌, ltb,
  leb, max, ◌+◌, ◌≤◌, ◌<◌, arith,
}
use omnect_os_init.Mode.Bmap.{
  ByteRange, MappedRange, Bmap, saturating_add, range_between, gaps_from, unmapped,
}

-- The byte at a position is in one of the ranges.
abbrev pub in_range : ℕ → ByteRange → Bool
in_range x r = leb r.offset x && ltb x (r.offset + r.len)

abbrev pub covers : ℕ → List ByteRange → Bool
covers x [] = false
covers x (r ∷ rs) = in_range x r || covers x rs

abbrev pub maps : ℕ → List MappedRange → Bool
maps x [] = false
maps x (r ∷ rs) = in_range x r.bytes || maps x rs

-- The ranges are in order, do not overlap, and begin at a position or behind it.
abbrev pub SortedFrom : ℕ → List MappedRange → Type 0
SortedFrom first [] = Unit
SortedFrom first (r ∷ rs) = (first ≤ r.bytes.offset) × SortedFrom (r.bytes.offset + r.bytes.len) rs

covers-append : (x : ℕ) (a b : List ByteRange) → covers x (a ++ b) ≡ (covers x a || covers x b)
covers-append x [] b = refl
covers-append x (r ∷ a) b = ground (arith, covers-append x a b)

covers-range_between :
    (x first last : ℕ) → covers x (range_between first last) ≡ (leb first x && ltb x last)
covers-range_between x first last = ground arith

maps-before :
    (x first : ℕ) (rs : List MappedRange) → SortedFrom first rs → x < first → maps x rs ≡ false
maps-before x first [] sorted h = refl
maps-before x first (r ∷ rs) sorted h =
    ground (arith, maps-before x (r.bytes.offset + r.bytes.len) rs sorted.1)

gaps_tests :
    (x area_end cursor start end : ℕ) (mapped : Bool)
    → leb area_end start ≡ false
    → start ≤ end
    → (x < end → mapped ≡ false)
    → ((leb cursor x && ltb x start) || (leb (max cursor end) x && ltb x area_end && not mapped))
      ≡ (leb cursor x && ltb x area_end && not ((leb start x && ltb x end) || mapped))
gaps_tests x area_end cursor start end true h ordered before = ground arith
gaps_tests x area_end cursor start end false h ordered before = ground arith

gaps_step :
    (x area_end cursor start end : ℕ) (mapped past : Bool)
    → leb area_end start ≡ past
    → start ≤ end
    → (after : List ByteRange) → (x < end → mapped ≡ false)
    → covers x after ≡ (leb (max cursor end) x && ltb x area_end && not mapped)
    → covers x (if past then range_between cursor area_end else range_between cursor start ++ after)
      ≡ (leb cursor x && ltb x area_end && not ((leb start x && ltb x end) || mapped))
gaps_step x area_end cursor start end mapped true h ordered after before ih =
    let all = covers-range_between x cursor area_end in ground arith
gaps_step x area_end cursor start end mapped false h ordered after before ih =
    covers-append x (range_between cursor start) after
    ∙ rw (covers-range_between x cursor start, ih)
        (gaps_tests x area_end cursor start end mapped h ordered before)

gaps_from-covers :
    (x area_end cursor first : ℕ) (rs : List MappedRange)
    → SortedFrom first rs
    → covers x (gaps_from area_end cursor rs) ≡ (leb cursor x && ltb x area_end && not (maps x rs))
unfolding gaps_from
gaps_from-covers x area_end cursor first [] sorted = ground arith
gaps_from-covers x area_end cursor first (r ∷ rs) sorted =
    let start = r.bytes.offset in
    let end = start + r.bytes.len in
    gaps_step x area_end cursor start end (maps x rs) (leb area_end start) refl (omega arith)
      (gaps_from area_end (max cursor end) rs) (maps-before x end rs sorted.1)
      (gaps_from-covers x area_end (max cursor end) end rs sorted.1)

-- For ranges in order that do not overlap, the unmapped parts of an area are exactly its bytes that
-- no range writes: a byte is in one of them if, and only if, it is in the area, the end of which
-- saturates, and in no range.
pub unmapped-covers :
    (bmap : Bmap) (area : ByteRange) (x : ℕ)
    → SortedFrom 0 bmap.ranges
    → covers x (unmapped bmap area) ≡ (
        leb area.offset x
        && ltb x (saturating_add area.offset area.len)
        && not (maps x bmap.ranges))
unfolding unmapped
unmapped-covers bmap area x sorted =
    gaps_from-covers x (saturating_add area.offset area.len) area.offset 0 bmap.ranges sorted
