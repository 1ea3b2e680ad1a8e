-- ===== src/Mode/Flash/Config.antt =====
-- src/mode/flash/config.rs: the flash modes and the values of their boot-env keys.
use omnect_os_init.Base.{
  ℕ, Bool, true, false, ◌||◌, List, [], ◌∷◌, ◌++◌, Option, none, some, ◌==◌, if◌then◌else◌, any,
  take, drop, length, Result, ok, err,
}
use omnect_os_init.Base.Text.{Text, lit, text_eq, is_empty, is_ascii_whitespace, trim, starts_with}

pub data FlashMode : Type 0 where
  mode1 mode2 mode3 : FlashMode

unfoldable pub selector : FlashMode → Text
unfolding lit
selector mode1 = lit "1"
selector mode2 = lit "2"
selector mode3 = lit "3"

unfoldable pub overwrites_running_disk : FlashMode → Bool
overwrites_running_disk mode1 = false
overwrites_running_disk mode2 = true
overwrites_running_disk mode3 = true

pub data EnvValue (T : Type 0) : Type 0 where
  set : T → EnvValue T
  not_set : EnvValue T
  invalid : Text → EnvValue T
  unreadable : Text → EnvValue T

pub record Url : Type 0 where
  pub unredacted : Text

-- `Url::new`: trimmed, and nothing for a blank text.
unfoldable pub new_url : Text → Option Url
unfolding trim
new_url url = let t = trim url in if is_empty t then none else some (record { unredacted = t })

abbrev cons_front : ℕ → Option (Text × Text) → Option (Text × Text)
cons_front c none = none
cons_front c (some (a, b)) = some (c ∷ a, b)

-- `find(sep)`, then `split_at` behind the place found.
unfoldable pub split_behind : Text → Text → Option (Text × Text)
unfolding starts_with
split_behind sep [] = if is_empty sep then some ([], []) else none
split_behind sep (c ∷ s) =
    let rest = split_behind sep s in
    if starts_with sep (c ∷ s)
    then some (take (length sep) (c ∷ s), drop (length sep) (c ∷ s))
    else cons_front c rest

-- The text up to the first character that `p` holds of, and the rest from it on.
unfoldable pub split_before : (ℕ → Bool) → Text → Text × Text
split_before p [] = ([], [])
split_before p (c ∷ s) = let (a, b) = split_before p s in if p c then ([], c ∷ s) else (c ∷ a, b)

-- `rsplit_once` at a character
unfoldable pub rsplit_once : ℕ → Text → Option (Text × Text)
rsplit_once d [] = none
rsplit_once d (c ∷ s) = elim (rsplit_once d s) [
  | some (a, b) ↦ some (c ∷ a, b)
  | none ↦ if c == d then some ([], s) else none
]

abbrev opens_query : ℕ → Bool
opens_query c = c == b'?' || c == b'#'

-- What is shown of the authority and the path behind the scheme.
redacted_rest : Text → Text → Text → Text
unfolding rsplit_once split_before lit
redacted_rest scheme authority path = elim (rsplit_once b'@' authority) [
  | some (info, host) ↦
      if any opens_query info
      then scheme ++ lit "<hidden>"
      else scheme ++ (split_before opens_query (host ++ path)).0
  | none ↦ scheme ++ (split_before opens_query (authority ++ path)).0
]

redacted_behind : Text → Text → Text
unfolding redacted_rest split_before
redacted_behind scheme rest =
    let (authority, path) = split_before (λ c. c == b'/') rest in
    redacted_rest scheme authority path

unfoldable pub redacted : Text → Text
unfolding redacted_behind split_behind lit
redacted url = elim (split_behind (lit "://") url) [
  | none ↦ redacted_behind [] url
  | some (scheme, rest) ↦ redacted_behind scheme rest
]

pub record FlashConfig : Type 0 where
  pub mode : FlashMode
  pub devpath : EnvValue Text
  pub image_url : EnvValue Url
  pub sha256_url : EnvValue Url

unfoldable pub new_config : FlashMode → FlashConfig
new_config mode = record {
  mode = mode;
  devpath = not_set;
  image_url = not_set;
  sha256_url = not_set;
}

unfoldable pub parse_mode : Text → Option FlashMode
unfolding text_eq lit
parse_mode value =
    if text_eq value (lit "1")
    then some mode1
    else if text_eq value (lit "2")
    then some mode2
    else if text_eq value (lit "3")
    then some mode3
    else none

unfoldable pub parse_devpath : Option Text → EnvValue Text
unfolding trim
parse_devpath none = not_set
parse_devpath (some value) =
    let path = trim value in if is_empty path then not_set else EnvValue.set path

abbrev without : (ℕ → Bool) → Text → Text
without p [] = []
without p (c ∷ s) = let rest = without p s in if p c then rest else c ∷ rest

-- The base64 decoder of the `base64` crate, with the text of its error, and `String::from_utf8`.
pub record Decoder : Type 0 where
  pub decode : Text → Result Text (List ℕ)
  pub from_utf8 : List ℕ → Option Text

module _ (d : Decoder) where
  decoded_url : Text → EnvValue Url
  unfolding lit new_url
  decoded_url encoded = elim (d.decode encoded) [
    | err e ↦ invalid (lit "not base64: " ++ e)
    | ok bytes ↦ elim (d.from_utf8 bytes) [
      | none ↦ invalid (lit "decodes to text that is not UTF-8")
      | some url ↦ elim (new_url url) [
        | none ↦ invalid (lit "decodes to an empty URL")
        | some u ↦ EnvValue.set u
      ]
    ]
  ]

  unfoldable pub parse_url : Option Text → EnvValue Url
  unfolding decoded_url is_ascii_whitespace
  parse_url value =
      let encoded = without is_ascii_whitespace (elim value [ none ↦ [] | some v ↦ v ]) in
      if is_empty encoded then not_set else decoded_url encoded
