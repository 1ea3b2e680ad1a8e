-- ===== src/Mode/Bmap/Copy.antt =====
-- src/mode/flash/bmap/copy.rs: the copy of the mapped ranges of an image. The reads and seeks of the
-- source, the writes of the destination and the digest are interfaces.
pub mod Image
pub mod Stream
pub mod Inputs
use omnect_os_init.Base.{
  ℕ, zero, suc, Bool, List, [], ◌∷◌, ◌++◌, if◌then◌else◌, Result, ok, err, length, ◌==◌, leb, min,
  ◌+◌, ◌-◌,
}
use omnect_os_init.Base.Exec.{
  Exec, pure, raise, lift, map_error, on_first, on_second, continue, ◌>>◌, ◌>>=◌,
}
use omnect_os_init.Base.Text.{Text, lit, text_eq}
use omnect_os_init.Base.Text.Numbers.{decimal}
use omnect_os_init.Error.{ErrorKind, IoError}
use omnect_os_init.Mode.Bmap.{ByteRange, MappedRange, Bmap}

-- `COPY_BUFFER_SIZE` of src/mode/flash/rawio.rs
abbrev pub copy_buffer_size : ℕ
copy_buffer_size = 1048576

-- `chunk_len` of src/mode/flash/rawio.rs
abbrev pub chunk_len : (left buf_len : ℕ) → ℕ
chunk_len left buf_len = min left buf_len

-- `Read` with `Seek`: a read gives at most so many bytes, and none at the end.
pub record Reader : Type 1 where
  pub State : Type 0
  pub read : ℕ → Exec IoError State (List ℕ)
  pub seek : ℕ → Exec IoError State (Unit {0})

-- The trait `Input`.
pub record Input : Type 1 where
  pub State : Type 0
  pub read : ℕ → Exec IoError State (List ℕ)
  pub position : State → ℕ
  pub skip_to : ℕ → Exec Text State (Unit {0})

-- The destination, `Write` with `Seek`.
pub record Output : Type 1 where
  pub State : Type 0
  pub seek : ℕ → Exec IoError State (Unit {0})
  pub write_all : List ℕ → Exec IoError State (Unit {0})

-- `Digest` of the package sha2
pub record Hasher : Type 1 where
  pub State : Type 0
  pub new : State
  pub update : List ℕ → State → State
  pub finalize : State → List ℕ

-- `read_error` of src/mode/flash/xz/mod.rs, with the limit of the dictionary.
unfoldable pub read_error : IoError → Text
unfolding lit
read_error e = elim e.kind [
  | ErrorKind.out_of_memory ↦
      lit "decoding needs too much memory, the xz dictionary limit is 64 MiB: " ++ e.message
  | ErrorKind.not_found ↦ lit "reading source: " ++ e.message
  | ErrorKind.other ↦ lit "reading source: " ++ e.message
]

module _ {T : Type 0} (read : ℕ → Exec IoError T (List ℕ)) (position : T → ℕ) {U : Type 0}
    (sink : List ℕ → Exec Text U (Unit {0})) where
  -- A read without bytes is an early end.
  unfoldable pub hand : List ℕ → Exec Text (T × U) (Unit {0})
  unfolding decimal
  hand [] (t, u) = (
    err (lit "source ended at byte " ++ (decimal (position t) ++ lit ", the image has more")),
    (t, u),
  )
  hand (b ∷ bytes) t = on_second (sink (b ∷ bytes)) t

  -- The loop; every turn but the last passes a byte at least, so as many turns as bytes are enough.
  unfoldable pub pass_loop : (fuel left : ℕ) → Exec Text (T × U) (Unit {0})
  unfolding hand read_error
  pass_loop zero left t = (ok tt, t)
  pass_loop (suc fuel) left t =
      if left == 0
      then (ok tt, t)
      else (do
        bytes ← on_first (map_error read_error (read (chunk_len left copy_buffer_size)))
        hand bytes
        pass_loop fuel (left - length bytes))
          t

  unfoldable pub pass_through : ℕ → Exec Text (T × U) (Unit {0})
  unfolding pass_loop
  pass_through len = pass_loop len len

unfoldable pub distance : (position target : ℕ) → Result Text ℕ
unfolding decimal
distance position target =
    if leb position target
    then ok (target - position)
    else err
        (lit "cannot move back from byte " ++ (decimal position ++ (lit " to " ++ decimal target)))

-- The position behind a read.
abbrev pub moved_on :
    {S : Type 0} → ℕ → Result IoError (List ℕ) × S → Result IoError (List ℕ) × (S × ℕ)
moved_on position (ok bytes, r) = (ok bytes, (r, position + length bytes))
moved_on position (err e, r) = (err e, (r, position))

-- The position behind a seek to a target.
abbrev pub sought :
    {S : Type 0}
    → (position target : ℕ) → Result IoError (Unit {0}) × S
    → Result Text (Unit {0}) × (S × ℕ)
sought position target (ok _, r) = (ok tt, (r, target))
sought position target (err e, r) = (err (lit "seeking source: " ++ e.message), (r, position))

module _ (R : Reader) where
  -- `Stream::read` and `Seekable::read`
  unfoldable pub counted : ℕ → Exec IoError (R.State × ℕ) (List ℕ)
  counted n (r, position) = moved_on position (R.read n r)

  unfoldable pub no_sink : List ℕ → Exec Text (Unit {0}) (Unit {0})
  no_sink bytes u = (ok tt, u)

  -- The bytes up to the target are read and not used.
  unfoldable pub read_over : Result Text ℕ → R.State × ℕ → Result Text (Unit {0}) × (R.State × ℕ)
  unfolding pass_through counted no_sink
  read_over (err e) t = (err e, t)
  read_over (ok len) t =
      let (r, (t', u)) = pass_through counted (λ s. s.1) no_sink len (t, tt) in (r, t')

  -- `Stream::skip_to`
  unfoldable pub skip_stream : ℕ → Exec Text (R.State × ℕ) (Unit {0})
  unfolding distance read_over
  skip_stream target t = read_over (distance t.1 target) t

  unfoldable pub seek_over :
      ℕ → Result Text ℕ → R.State × ℕ → Result Text (Unit {0}) × (R.State × ℕ)
  seek_over target (err e) t = (err e, t)
  seek_over target (ok len) (r, position) = sought position target (R.seek target r)

  -- `Seekable::skip_to`
  unfoldable pub skip_seekable : ℕ → Exec Text (R.State × ℕ) (Unit {0})
  unfolding distance seek_over
  skip_seekable target t = seek_over target (distance t.1 target) t

  -- `Stream`
  abbrev pub stream : Input
  stream = record {
    State = R.State × ℕ;
    read = counted;
    position = λ t. t.1;
    skip_to = skip_stream;
  }

  -- `Seekable`
  abbrev pub seekable : Input
  seekable = record {
    State = R.State × ℕ;
    read = counted;
    position = λ t. t.1;
    skip_to = skip_seekable;
  }

module _ (I : Input) (O : Output) (H : Hasher) where
  abbrev pub Copying : Type 0 → Type 0
  Copying A = Exec Text (I.State × O.State) A

  -- The sink of a range: the digest and the destination.
  unfoldable pub hash_and_write : List ℕ → Exec Text (H.State × O.State) (Unit {0})
  hash_and_write chunk (h, o) =
      on_second
        (map_error (λ (e : IoError). lit "writing destination: " ++ e.message) (O.write_all chunk))
        (H.update chunk h, o)

  abbrev digested :
      Result Text (Unit {0}) × (I.State × (H.State × O.State))
      → Result Text (List ℕ) × (I.State × O.State)
  digested (ok _, (i, (h, o))) = (ok (H.finalize h), (i, o))
  digested (err e, (i, (h, o))) = (err e, (i, o))

  -- The bytes of a range with a new digest.
  unfoldable pub pass_range : ℕ → Copying (List ℕ)
  unfolding pass_through hash_and_write
  pass_range len (i, o) =
      digested (pass_through I.read I.position hash_and_write len (i, (H.new, o)))

  unfoldable pub check_digest : MappedRange → List ℕ → Copying (Unit {0})
  unfolding text_eq decimal
  check_digest range digest t = if text_eq digest range.sha256 then (ok tt, t) else (
    err (
        lit "checksum mismatch in bytes "
        ++ (decimal range.bytes.offset
            ++ (lit ".." ++ decimal (range.bytes.offset + range.bytes.len)))),
    t,
  )

  unfoldable pub copy_range : MappedRange → Copying (Unit {0})
  unfolding pass_range check_digest
  copy_range range = do
    on_first (I.skip_to range.bytes.offset)
    on_second (
        map_error (λ (e : IoError). lit "seeking destination: " ++ e.message)
          (O.seek range.bytes.offset))
    digest ← pass_range range.bytes.len
    check_digest range digest

  unfoldable pub copy_ranges : List MappedRange → Copying (Unit {0})
  unfolding copy_range
  copy_ranges [] = pure tt
  copy_ranges (range ∷ rest) = do copy_range range; copy_ranges rest

  unfoldable pub refuse_extra : ℕ → List ℕ → Copying (Unit {0})
  unfolding decimal
  refuse_extra image_size [] t = (ok tt, t)
  refuse_extra image_size (b ∷ bytes) t =
      (err (lit "source is longer than the image of " ++ (decimal image_size ++ lit " bytes")), t)

  unfoldable pub copy_stream : Bmap → Copying (Unit {0})
  unfolding copy_ranges refuse_extra
  copy_stream bmap = do
    copy_ranges bmap.ranges
    on_first (I.skip_to bmap.image_size)
    extra ← on_first (map_error (λ (e : IoError). lit "reading source: " ++ e.message) (I.read 1))
    refuse_extra bmap.image_size extra
