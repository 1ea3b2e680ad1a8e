-- ===== src/Base/FilePath.antt =====
-- `std::path::Path` on Unix: components, file names, joining and comparison.
use omnect_os_init.Base.{
  ℕ, Bool, true, false, ◌&&◌, ◌||◌, List, [], ◌∷◌, ◌++◌, Option, none, some, ◌==◌, if◌then◌else◌,
  map,
}
use omnect_os_init.Base.Text.{Text, lit, text_eq, is_empty, split, starts_with, ends_with, join}

-- `std::path::Component`; Unix has no prefix components.
pub data Component : Type 0 where
  root_dir cur_dir parent_dir : Component
  normal : Text → Component

abbrev is_slash : ℕ → Bool
is_slash c = c == b'/'

-- The components of the pieces between slashes: empty and `.` pieces leave none.
unfoldable pub piece_components : List Text → List Component
unfolding lit text_eq
piece_components [] = []
piece_components (p ∷ ps) =
    let rest = piece_components ps in
    if is_empty p || text_eq p (lit ".")
    then rest
    else (if text_eq p (lit "..") then parent_dir else normal p) ∷ rest

leading_components : List Text → List Component
unfolding piece_components
leading_components [] = []
leading_components (p ∷ ps) =
    if text_eq p (lit ".") then cur_dir ∷ piece_components ps else piece_components (p ∷ ps)

-- `Path::components`
unfoldable pub components : Text → List Component
unfolding leading_components piece_components split
components [] = []
components (c ∷ s) =
    if is_slash c
    then root_dir ∷ piece_components (split is_slash (c ∷ s))
    else leading_components (split is_slash (c ∷ s))

unfoldable pub last_normal : List Component → Option Text
last_normal [] = none
last_normal (normal p ∷ []) = some p
last_normal (c ∷ []) = none
last_normal (c ∷ d ∷ cs) = last_normal (d ∷ cs)

-- `Path::file_name`
unfoldable pub file_name : Text → Option Text
unfolding components last_normal
file_name s = last_normal (components s)

-- `Path::join`
unfoldable pub path_join : Text → Text → Text
unfolding ends_with starts_with lit
path_join base p =
    if starts_with (lit "/") p
    then p
    else if is_empty base || ends_with is_slash base
    then base ++ p
    else base ++ (lit "/" ++ p)

same_component : Component → Component → Bool
unfolding text_eq
same_component root_dir root_dir = true
same_component cur_dir cur_dir = true
same_component parent_dir parent_dir = true
same_component (normal p) (normal q) = text_eq p q
same_component _ _ = false

same_components : List Component → List Component → Bool
unfolding same_component
same_components [] [] = true
same_components (c ∷ cs) (d ∷ ds) = same_component c d && same_components cs ds
same_components _ _ = false

has_prefix : List Component → List Component → Bool
unfolding same_component
has_prefix [] cs = true
has_prefix (p ∷ ps) [] = false
has_prefix (p ∷ ps) (c ∷ cs) = same_component p c && has_prefix ps cs

-- `==` of two paths
unfoldable pub path_eq : Text → Text → Bool
unfolding components same_components
path_eq a b = same_components (components a) (components b)

-- `Path::starts_with`
unfoldable pub path_starts_with : Text → Text → Bool
unfolding components has_prefix
path_starts_with path base = has_prefix (components base) (components path)

-- The parts around the last character `d`.
rsplit_once : ℕ → Text → Option (Text × Text)
rsplit_once d [] = none
rsplit_once d (c ∷ s) = elim (rsplit_once d s) [
  | some (a, b) ↦ some (c ∷ a, b)
  | none ↦ if c == d then some ([], s) else none
]

extension_of : Text → Option Text
unfolding rsplit_once
extension_of name = elim (rsplit_once b'.' name) [
  | none ↦ none
  | some (stem, ext) ↦ if is_empty stem then none else some ext
]

-- `Path::extension`
unfoldable pub extension : Text → Option Text
unfolding file_name extension_of
extension s = elim (file_name s) [ none ↦ none | some name ↦ extension_of name ]

-- `Path::is_absolute`
unfoldable pub is_absolute : Text → Bool
unfolding starts_with lit
is_absolute s = starts_with (lit "/") s

component_text : Component → Text
unfolding lit
component_text root_dir = []
component_text cur_dir = lit "."
component_text parent_dir = lit ".."
component_text (normal p) = p

-- The path of the components, without repeated slashes.
path_of : List Component → Text
unfolding component_text lit join
path_of [] = []
path_of (root_dir ∷ []) = lit "/"
path_of (c ∷ cs) = join (lit "/") (map component_text (c ∷ cs))

without_last : List Component → Option (List Component)
without_last [] = none
without_last (root_dir ∷ []) = none
without_last (c ∷ []) = some []
without_last (c ∷ d ∷ cs) = elim (without_last (d ∷ cs)) [
  | none ↦ none
  | some front ↦ some (c ∷ front)
]

-- `Path::parent`, as far as repeated slashes and dots are left out.
unfoldable pub parent : Text → Option Text
unfolding components without_last path_of
parent s = elim (without_last (components s)) [ none ↦ none | some front ↦ some (path_of front) ]

abbrev pub is_parent_dir : Component → Bool
is_parent_dir parent_dir = true
is_parent_dir c = false

without_prefix : List Component → List Component → Option (List Component)
unfolding same_component
without_prefix [] cs = some cs
without_prefix (p ∷ ps) [] = none
without_prefix (p ∷ ps) (c ∷ cs) =
    let rest = without_prefix ps cs in if same_component p c then rest else none

-- `Path::strip_prefix`
unfoldable pub strip_prefix : Text → Text → Option Text
unfolding components without_prefix path_of
strip_prefix path base = elim (without_prefix (components base) (components path)) [
  | none ↦ none
  | some rest ↦ some (path_of rest)
]

-- The beginnings of a list, the longest first, the empty one left out.
beginnings : List Component → List (List Component)
beginnings [] = []
beginnings (c ∷ cs) = map (λ front. c ∷ front) (beginnings cs) ++ ((c ∷ []) ∷ [])

-- `Path::ancestors`, without the empty path that ends those of a relative path.
unfoldable pub ancestors : Text → List Text
unfolding components beginnings path_of
ancestors path = map path_of (beginnings (components path))
