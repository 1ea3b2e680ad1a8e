-- ===== src/Base/Text.antt =====
-- Rust's `str` as the list of its characters, and the operations of `str` that the program uses.
pub mod Numbers
pub mod FirstChar
pub mod Laws
pub mod Digits
pub mod Occurrence
use Prim.Native.Char.{code}
use Prim.Native.Nat.{ℕ, zero, suc}
use Prim.Native.String.{String}
use mathlib.Core.Bool.{Bool, true, false, not, ◌&&◌, ◌||◌}
use mathlib.Core.List.{List, [], ◌∷◌, ◌++◌}
use mathlib.Core.Option.{Option, none, some}
use omnect_os_init.Base.Lists.{length, drop}
use omnect_os_init.Base.Tests.{leb, ◌==◌, if◌then◌else◌}

abbrev pub Text : Type 0
Text = List ℕ

-- The characters of a literal.
unfoldable pub lit : String → Text
lit String.[] = []
lit (String.◌∷◌ c s) = code c ∷ lit s

unfoldable pub text_eq : Text → Text → Bool
text_eq [] [] = true
text_eq [] (d ∷ t) = false
text_eq (c ∷ s) [] = false
text_eq (c ∷ s) (d ∷ t) = c == d && text_eq s t

abbrev pub is_empty : Text → Bool
is_empty [] = true
is_empty (c ∷ s) = false

-- `char::is_ascii_digit`
unfoldable pub is_ascii_digit : ℕ → Bool
is_ascii_digit c = leb 48 c && leb c 57

-- `char::is_ascii_whitespace`
unfoldable pub is_ascii_whitespace : ℕ → Bool
is_ascii_whitespace c = c == 32 || c == 9 || c == 10 || c == 12 || c == 13

-- `char::is_whitespace`: the characters with the Unicode property White_Space.
unfoldable pub is_whitespace : ℕ → Bool
is_whitespace c =
    c == 32
    || leb 9 c && leb c 13
    || c == 0x85
    || c == 0xa0
    || c == 0x1680
    || leb 0x2000 c && leb c 0x200a
    || c == 0x2028
    || c == 0x2029
    || c == 0x202f
    || c == 0x205f
    || c == 0x3000

-- `trim_start_matches`
unfoldable pub trim_start : (ℕ → Bool) → Text → Text
trim_start p [] = []
trim_start p (c ∷ s) = let rest = trim_start p s in if p c then rest else c ∷ s

abbrev push_kept : (ℕ → Bool) → ℕ → Text → Text
push_kept p c [] = if p c then [] else c ∷ []
push_kept p c (d ∷ s) = c ∷ d ∷ s

-- `trim_end_matches`
unfoldable pub trim_end : (ℕ → Bool) → Text → Text
trim_end p [] = []
trim_end p (c ∷ s) = push_kept p c (trim_end p s)

-- `trim`
unfoldable pub trim : Text → Text
trim s = trim_end is_whitespace (trim_start is_whitespace s)

abbrev pub cons_first : ℕ → Option (Text × Text) → Option (Text × Text)
cons_first c none = none
cons_first c (some (a, b)) = some (c ∷ a, b)

-- `split_once` at a character
unfoldable pub split_once : ℕ → Text → Option (Text × Text)
split_once d [] = none
split_once d (c ∷ s) =
    let rest = split_once d s in if c == d then some ([], s) else cons_first c rest

-- Puts a character in front of the first word.
abbrev cons_word : ℕ → List Text → List Text
cons_word c [] = (c ∷ []) ∷ []
cons_word c (w ∷ ws) = (c ∷ w) ∷ ws

abbrev drop_empty : List Text → List Text
drop_empty [] = []
drop_empty ([] ∷ ws) = drop_empty ws
drop_empty ((c ∷ w) ∷ ws) = (c ∷ w) ∷ drop_empty ws

-- `split` at each character that `p` holds of; the empty pieces are kept.
unfoldable pub split : (ℕ → Bool) → Text → List Text
split p [] = [] ∷ []
split p (c ∷ s) = let rest = split p s in if p c then [] ∷ rest else cons_word c rest

-- `split_whitespace`
unfoldable pub split_whitespace : Text → List Text
unfolding split is_whitespace
split_whitespace s = drop_empty (split is_whitespace s)

-- `join` on a slice of strings
unfoldable pub join : Text → List Text → Text
join sep [] = []
join sep (w ∷ []) = w
join sep (w ∷ v ∷ ws) = w ++ (sep ++ join sep (v ∷ ws))

unfoldable pub starts_with : Text → Text → Bool
starts_with [] s = true
starts_with (p ∷ ps) [] = false
starts_with (p ∷ ps) (c ∷ s) = p == c && starts_with ps s

-- `split_once` at a text: what stands before its first occurrence and behind it.
unfoldable pub split_once_text : Text → Text → Option (Text × Text)
unfolding starts_with
split_once_text part [] = if is_empty part then some ([], []) else none
split_once_text part (c ∷ s) =
    let rest = split_once_text part s in
    if starts_with part (c ∷ s) then some ([], drop (length part) (c ∷ s)) else cons_first c rest

-- The characters up to the first one that `p` does not hold of.
unfoldable pub take_while : (ℕ → Bool) → Text → Text
take_while p [] = []
take_while p (c ∷ s) = let rest = take_while p s in if p c then c ∷ rest else []

-- `s.contains(part)`
unfoldable pub contains : Text → Text → Bool
unfolding starts_with
contains part [] = is_empty part
contains part (c ∷ s) = starts_with part (c ∷ s) || contains part s

-- The last character, and the text before it.
unfoldable pub unsnoc : Text → Option (Text × ℕ)
unsnoc [] = none
unsnoc (c ∷ []) = some ([], c)
unsnoc (c ∷ d ∷ s) = elim (unsnoc (d ∷ s)) [ none ↦ none | some (i, l) ↦ some (c ∷ i, l) ]

-- `ends_with` a character that `p` holds of
unfoldable pub ends_with : (ℕ → Bool) → Text → Bool
unfolding unsnoc
ends_with p s = elim (unsnoc s) [ none ↦ false | some (i, l) ↦ p l ]

-- `strip_suffix` of a character
unfoldable pub strip_suffix : ℕ → Text → Option Text
unfolding unsnoc
strip_suffix c s = elim (unsnoc s) [ none ↦ none | some (i, l) ↦ if l == c then some i else none ]
