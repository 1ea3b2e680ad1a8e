-- ===== src/Mode/Bmap.antt =====
-- src/mode/flash/bmap/mod.rs: the mapped ranges of an image, and the gaps between them.
pub mod Gaps
pub mod Parse
pub mod Copy
use omnect_os_init.Base.{
  ℕ, Bool, List, [], ◌∷◌, ◌++◌, map, if◌then◌else◌, ltb, leb, min, max, ◌+◌, ◌-◌,
}
use omnect_os_init.Base.Text.Numbers.{u64_max}

-- `ByteRange` of src/mode/flash/rawio.rs
pub record ByteRange : Type 0 where
  pub offset : ℕ
  pub len : ℕ

-- The digest is the list of its bytes.
pub record MappedRange : Type 0 where
  pub bytes : ByteRange
  pub sha256 : List ℕ

pub record Bmap : Type 0 where
  pub image_size : ℕ
  pub ranges : List MappedRange

-- `u64::saturating_add`
abbrev pub saturating_add : ℕ → ℕ → ℕ
saturating_add a b = min (a + b) u64_max

-- `first..last` as a range, if it is not empty.
abbrev pub range_between : ℕ → ℕ → List ByteRange
range_between first last =
    if ltb first last then record { offset = first; len = last - first } ∷ [] else []

-- The gaps from the cursor on. The end of a range is inside the image, as `parse` checks, so the
-- sum does not overflow.
unfoldable pub gaps_from : (area_end cursor : ℕ) → List MappedRange → List ByteRange
gaps_from area_end cursor [] = range_between cursor area_end
gaps_from area_end cursor (r ∷ rs) =
    let start = r.bytes.offset in
    let rest = gaps_from area_end (max cursor (start + r.bytes.len)) rs in
    if leb area_end start then range_between cursor area_end else range_between cursor start ++ rest

unfoldable pub unmapped : Bmap → ByteRange → List ByteRange
unfolding gaps_from
unmapped bmap area = gaps_from (saturating_add area.offset area.len) area.offset bmap.ranges
