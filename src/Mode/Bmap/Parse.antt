-- ===== src/Mode/Bmap/Parse.antt =====
-- src/mode/flash/bmap/parse.rs: parsing a bmap and checking every value in it. The XML parser, the
-- digest and the hex decoder are parameters.
pub mod Checked
use omnect_os_init.Base.{
  ℕ, zero, Bool, true, false, not, ◌&&◌, List, [], ◌∷◌, ◌++◌, Option, none, some, if◌then◌else◌,
  Result, ok, err, ◌>>=◌, ◌>>◌, map_err, ok_or, length, ◌==◌, ltb, leb, min, ◌+◌, ◌-◌, ◌*◌, ◌/◌,
  ◌%◌, take, drop,
}
use omnect_os_init.Base.Text.{Text, lit, text_eq, trim, split_once, starts_with, is_empty}
use omnect_os_init.Base.Text.Numbers.{decimal, parse_uint, int_error_text, u64_max}
use omnect_os_init.Mode.Bmap.{ByteRange, MappedRange, Bmap}

-- `XmlRange`
pub record XmlRange : Type 0 where
  pub chksum : Text
  pub blocks : Text

-- `XmlBmap`, with the ranges of its `XmlBlockMap`.
pub record XmlBmap : Type 0 where
  pub version : Text
  pub image_size : Text
  pub block_size : Text
  pub blocks_count : Text
  pub mapped_blocks_count : Text
  pub checksum_type : Text
  pub file_checksum : Text
  pub ranges : List XmlRange

-- `quick_xml::de::from_str`, `Sha256::digest` and `sha256_from_hex`, which leaves no error text.
pub record Libraries : Type 0 where
  pub from_str : Text → Result Text XmlBmap
  pub digest : Text → List ℕ
  pub sha256_from_hex : Text → Option (List ℕ)

unfoldable pub number : Text → Text → Result Text ℕ
unfolding parse_uint int_error_text lit trim
number name text =
    map_err (λ e. name ++ (lit " '" ++ (trim text ++ (lit "': " ++ int_error_text e))))
      (parse_uint u64_max (trim text))

-- `if refused { return Err(…) }`
abbrev pub refuse_if : Bool → Text → Result Text (Unit {0})
refuse_if true reason = err reason
refuse_if false reason = ok tt

-- `replacen(from, to, 1)`
replace_first : Text → Text → Text → Text
unfolding starts_with
replace_first from to [] = if is_empty from then to else []
replace_first from to (c ∷ s) =
    let rest = replace_first from to s in
    if starts_with from (c ∷ s) then to ++ drop (length from) (c ∷ s) else c ∷ rest

zeros : {A : Type 0} → List A → Text
zeros [] = []
zeros (c ∷ s) = b'0' ∷ zeros s

minor_is_number : Option (Text × Text) → Bool
unfolding parse_uint
minor_is_number none = false
minor_is_number (some (major, minor)) = elim (parse_uint u64_max major) [
  | err e ↦ false
  | ok m ↦ m == 2 && elim (parse_uint u64_max minor) [ err e ↦ false | ok n ↦ true ]
]

unfoldable pub check_version : Text → Result Text (Unit {0})
unfolding minor_is_number split_once lit
check_version version =
    refuse_if (not (minor_is_number (split_once b'.' version)))
      (lit "bmap version '" ++ (version ++ lit "' is not supported"))

span_ends : Option (Text × Text) → Text → Text × Text
span_ends none text = (text, text)
span_ends (some ends) text = ends

unfoldable pub block_span : Text → Result Text (ℕ × ℕ)
unfolding number span_ends split_once trim lit
block_span text = do
  let t = trim text
  let (first_text, last_text) = span_ends (split_once b'-' t) t
  first ← number (lit "range start") first_text
  last ← number (lit "range end") last_text
  refuse_if (ltb last first) (lit "range '" ++ (t ++ lit "' ends before it starts"))
  ok (first, last)

-- The operations on u64 that fail when the result does not fit.
abbrev pub checked : ℕ → Option ℕ
checked n = if leb n u64_max then some n else none

overflow : Text
unfolding lit
overflow = lit "range does not fit a byte offset"

-- `u64::div_ceil`
abbrev pub div_ceil : ℕ → ℕ → ℕ
div_ceil a b = a / b + (if (a % b) == 0 then 0 else 1)

-- What the loop over the ranges carries on.
pub record Progress : Type 0 where
  pub mapped_blocks : ℕ
  pub next_free : ℕ

module _ (l : Libraries) where
  checksum_from_hex : Text → Result Text (List ℕ)
  unfolding trim lit
  checksum_from_hex text =
      ok_or (l.sha256_from_hex (trim text))
        (lit "checksum '" ++ (trim text ++ lit "' is not a sha256"))

  unfoldable pub check_file_checksum : Text → Text → Result Text (Unit {0})
  unfolding checksum_from_hex replace_first zeros text_eq trim lit
  check_file_checksum text checksum = do
    let c = trim checksum
    expected ← checksum_from_hex c
    let actual = l.digest (replace_first c (zeros c) text)
    refuse_if (not (text_eq actual expected)) (lit "bmap file checksum does not match")

  module _ (image_size block_size blocks_count : ℕ) where
    -- The body of the loop, behind the span.
    check_span : Progress → XmlRange → ℕ × ℕ → Result Text (MappedRange × Progress)
    unfolding checksum_from_hex overflow trim lit
    check_span p range (first, last) = do
      offset ← ok_or (checked (first * block_size)) overflow
      next ← ok_or (checked (last + 1)) overflow
      limit ← ok_or (checked (next * block_size)) overflow
      let end = min limit image_size
      refuse_if (leb blocks_count last)
          (lit "range '" ++ (trim range.blocks ++ lit "' ends behind the image end"))
      refuse_if (ltb offset p.next_free)
          (lit "range '" ++ (trim range.blocks ++ lit "' overlaps or is out of order"))
      mapped ← ok_or (checked (p.mapped_blocks + (last - first + 1))) overflow
      sha256 ← checksum_from_hex range.chksum
      ok (
        record { bytes = record { offset = offset; len = end - offset }; sha256 = sha256 },
        record { mapped_blocks = mapped; next_free = end },
      )

    check_range : Progress → XmlRange → Result Text (MappedRange × Progress)
    unfolding block_span check_span
    check_range p range = do span ← block_span range.blocks; check_span p range span

    unfoldable pub check_ranges :
        Progress → List XmlRange → Result Text (List MappedRange × Progress)
    unfolding check_range
    check_ranges p [] = ok ([], p)
    check_ranges p (range ∷ ranges) = do
      (r, p') ← check_range p range
      (rs, p'') ← check_ranges p' ranges
      ok (r ∷ rs, p'')

  abbrev no_ranges : List MappedRange → Bool
  no_ranges [] = true
  no_ranges (r ∷ rs) = false

  -- What follows the loop.
  finish : (image_size mapped_blocks : ℕ) → List MappedRange → Text → Result Text Bmap
  unfolding number decimal lit
  finish image_size mapped_blocks ranges mapped_text = do
    refuse_if (no_ranges ranges) (lit "bmap maps no blocks")
    mapped_count ← number (lit "MappedBlocksCount") mapped_text
    refuse_if (not (mapped_blocks == mapped_count)) (
        lit "MappedBlocksCount "
        ++ (decimal mapped_count
            ++ (lit " does not match the "
                ++ (decimal mapped_blocks ++ lit " blocks of the ranges"))))
    ok (record { image_size = image_size; ranges = ranges })

  -- The image size, the block size and the number of blocks.
  sizes : XmlBmap → Result Text (ℕ × ℕ × ℕ)
  unfolding number lit decimal
  sizes xml = do
    image_size ← number (lit "ImageSize") xml.image_size
    block_size ← number (lit "BlockSize") xml.block_size
    refuse_if (block_size == 0) (lit "BlockSize is 0")
    blocks_count ← number (lit "BlocksCount") xml.blocks_count
    refuse_if (not (blocks_count == div_ceil image_size block_size)) (
        lit "BlocksCount "
        ++ (decimal blocks_count ++ (lit " does not match ImageSize " ++ decimal image_size)))
    ok (image_size, block_size, blocks_count)

  -- The ranges and what follows them.
  body : XmlBmap → ℕ × ℕ × ℕ → Result Text Bmap
  unfolding check_ranges finish
  body xml (image_size, block_size, blocks_count) = do
    (ranges, p) ←
        check_ranges image_size block_size blocks_count
          (record { mapped_blocks = 0; next_free = 0 }) xml.ranges
    finish image_size p.mapped_blocks ranges xml.mapped_blocks_count

  -- The version and the checksum of the file.
  check_head : Text → XmlBmap → Result Text (Unit {0})
  unfolding check_version check_file_checksum text_eq trim lit
  check_head text xml = do
    check_version xml.version
    refuse_if (not (text_eq (trim xml.checksum_type) (lit "sha256")))
        (lit "checksum type '" ++ (trim xml.checksum_type ++ lit "' is not supported"))
    check_file_checksum text xml.file_checksum

  -- `Bmap::parse`
  unfoldable pub parse : Text → Result Text Bmap
  unfolding check_head sizes body
  parse text = do xml ← l.from_str text; check_head text xml; s ← sizes xml; body xml s
