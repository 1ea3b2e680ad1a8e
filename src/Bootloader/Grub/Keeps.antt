-- ===== src/Bootloader/Grub/Keeps.antt =====
-- The backend of src/bootloader/grub.rs keeps the values that it is given, with a tool that works.
use omnect_os_init.Base.{
  ◌≡◌, refl, ◌∙◌, Bool, true, not, zero, List, [], ◌∷◌, ◌++◌, Option, none, some, if◌then◌else◌, ok,
  all, map, arith, ◌==◌, ◌&&◌,
}
use omnect_os_init.Base.Equality.{◌=?◌, =?_refl}
use omnect_os_init.Base.Text.{Text, lit, text_eq, split_once}
use omnect_os_init.Base.Text.Numbers.{pos}
use omnect_os_init.Bootloader.Env.{marker}
use omnect_os_init.Bootloader.Grub.{
  GrubTools, lines, find_value, run_grub_editenv, run_result, grub_get_env, grub_set_env,
  grub_boot_env,
}
use omnect_os_init.Bootloader.Key.{BootEnvKey, key_text, key_equality}
use omnect_os_init.Bootloader.Key.Distinct.{text_eq-key_text}
use omnect_os_init.Bootloader.Laws.{KeepsValues}
use omnect_os_init.Bootloader.Record.{Applets}

-- The names and values of an environment block.
abbrev pub Entries : Type 0
Entries = List (Text × Text)

-- The first value of a name.
abbrev pub value_in : Text → Entries → Option Text
value_in name [] = none
value_in name ((k, v) ∷ es) = let rest = value_in name es in if text_eq k name then some v else rest

abbrev pub no_equals : Text → Bool
no_equals name = all (λ c. not (c == b'=')) name

-- A value that is one line.
abbrev pub one_line : Text → Bool
one_line v = all (λ c. not (c == b'\n') && not (c == b'\r')) v

-- The line of an entry, as `grub-editenv list` prints it.
abbrev pub entry_line : Text × Text → Text
entry_line (name, v) = name ++ b'=' ∷ v

-- What is documented of `grub-editenv`, for an environment block that it can read and write and
-- whose values are one line each: `list` prints a line for each entry, no name has an equals sign,
-- and `unset` of a key and `set` of a key to a value that fits the block change one entry.
pub record GrubKeeps (t : GrubTools) : Type 1 where
  pub entries : t.State → Entries
  pub listing : t.State → Text
  pub status : Text
  -- the values that there is room for
  pub Fits : Text → Type 0
  pub fits-marker : Fits marker
  pub list-runs :
      (s : t.State)
      → t.editenv (lit "list" ∷ []) s ≡ (
        ok (record { code = some (pos zero); stdout = listing s; stderr = []; status = status }),
        s,
      )
  pub list-lines : (s : t.State) → lines (listing s) ≡ map entry_line (entries s)
  pub names : (s : t.State) → all (λ (e : Text × Text). no_equals e.0) (entries s) ≡ true
  pub unset :
      (key : BootEnvKey) (j : Text) (s : t.State)
      → value_in j (entries (t.editenv (lit "unset" ∷ key_text key ∷ []) s).1)
        ≡ (if text_eq (key_text key) j then none else value_in j (entries s))
  pub set :
      (key : BootEnvKey) (j v : Text) (s : t.State)
      → one_line v ≡ true
      → Fits v
      → value_in j (entries (t.editenv (lit "set" ∷ (key_text key ++ (lit "=" ++ v)) ∷ []) s).1)
        ≡ (if text_eq (key_text key) j then some v else value_in j (entries s))

split_once-entry_line :
    (name v : Text)
    → no_equals name ≡ true
    → split_once b'=' (entry_line (name, v)) ≡ some (name, v)
unfolding split_once
split_once-entry_line [] v h = refl
split_once-entry_line (c ∷ name) v h =
    rw (split_once-entry_line name v (ground arith)) (ground arith)

-- The search of the lines finds what the entries have.
find_value-entries :
    (name : Text) (es : Entries)
    → all (λ (e : Text × Text). no_equals e.0) es ≡ true
    → find_value name (map entry_line es) ≡ value_in name es
unfolding find_value
find_value-entries name [] h = refl
find_value-entries name ((k, v) ∷ es) h =
    let first = split_once-entry_line k v (ground arith) in
    let rest = find_value-entries name es (ground arith) in ground arith

module _ (t : GrubTools) (a : Applets) (K : GrubKeeps t) where
  unfoldable pub value_at : t.State → BootEnvKey → Option Text
  value_at s key = value_in (key_text key) (K.entries s)

  pub grub_get_env-value :
      (key : BootEnvKey) (s : t.State) → grub_get_env t key s ≡ (ok (value_at s key), s)
  unfolding grub_get_env run_grub_editenv run_result value_at
  grub_get_env-value key s =
      rw
        (K.list-runs s, K.list-lines s, find_value-entries (key_text key) (K.entries s) (K.names s))
        refl

  pub grub_set_env-unset :
      (key j : BootEnvKey) (s : t.State)
      → value_at (grub_set_env t key none s).1 j ≡ (if key =? j then none else value_at s j)
  unfolding grub_set_env run_grub_editenv value_at
  grub_set_env-unset key j s = K.unset key (key_text j) s ∙ rw (text_eq-key_text key j) refl

  pub grub_set_env-set :
      (key j : BootEnvKey) (v : Text) (s : t.State)
      → one_line v ≡ true
      → K.Fits v
      → value_at (grub_set_env t key (some v) s).1 j ≡ (if key =? j then some v else value_at s j)
  unfolding grub_set_env run_grub_editenv value_at
  grub_set_env-set key j v s plain fits =
      K.set key (key_text j) v s plain fits ∙ rw (text_eq-key_text key j) refl

  -- The backend keeps values, and takes those of one line that there is room for.
  pub grub_boot_env-KeepsValues : KeepsValues (grub_boot_env t a)
  unfolding grub_boot_env marker lit
  grub_boot_env-KeepsValues = record {
    value = value_at;
    Takes = λ v. (one_line v ≡ true) × K.Fits v;
    get-value = grub_get_env-value;
    value-unset = grub_set_env-unset;
    value-marked =
        λ key s. grub_set_env-set key key marker s refl K.fits-marker ∙ rw (=?_refl key) refl;
    value-other =
        λ key j v s takes apart. grub_set_env-set key j v s takes.0 takes.1 ∙ rw apart refl;
  }
