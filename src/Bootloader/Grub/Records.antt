-- ===== src/Bootloader/Grub/Records.antt =====
-- The fsck records that the backend of src/bootloader/grub.rs reads and clears: that of the boot
-- partition is in the environment, each other one in a file that its read removes.
use omnect_os_init.Base.{
  ◌≡◌, ◌≢◌, refl, sym, ◌∙◌, ap, subst, Bool, true, false, zero, List, [], ◌∷◌, ◌++◌, Option, none,
  some, if◌then◌else◌, Result, ok, arith, Bool-cases, Option-cases, inl, inr,
}
use omnect_os_init.Base.Equality.{◌=?◌}
use omnect_os_init.Base.Text.{Text, lit, text_eq}
use omnect_os_init.Base.Text.Laws.{text_eq→eq, text_eq_refl}
use omnect_os_init.Base.Text.Numbers.{pos}
use omnect_os_init.Bootloader.Env.{record_of_stored, get_fsck_env}
use omnect_os_init.Bootloader.Grub.{
  GrubTools, FsckChannel, env, file, channel_for, fsck_file_path, run_grub_editenv, grub_get_env,
  grub_set_env, clear_fsck_file, get_fsck_from_file,
}
use omnect_os_init.Bootloader.Grub.Paths.{text_eq-fsck_file_path}
use omnect_os_init.Bootloader.Grub.Keeps.{
  GrubKeeps, one_line, value_at, grub_get_env-value, grub_set_env-unset,
}
use omnect_os_init.Bootloader.Key.{BootEnvKey, fsck_status, key_text}
use omnect_os_init.Bootloader.Key.Distinct.{fsck_status-key}
use omnect_os_init.Bootloader.Laws.{gives_record}
use omnect_os_init.Bootloader.Record.{FsckRecord, Applets, decode_fsck_output}
use omnect_os_init.Error.{BootEnvError}
use omnect_os_init.Partition.Name.{PartitionName, name_equality}

abbrev is_some : Option Text → Bool
is_some none = false
is_some (some c) = true

-- What is documented of the files of the boot partition, where nothing but files lies at the paths of
-- the records and there is room for them; `grub-editenv` and the files do not touch each other, and a
-- `set` that has room succeeds.
pub record FilesKeep (t : GrubTools) (K : GrubKeeps t) : Type 0 where
  pub content : t.State → Text → Option Text
  pub is_file-content :
      (p : PartitionName) (s : t.State)
      → t.is_file (fsck_file_path p) s ≡ is_some (content s (fsck_file_path p))
  pub exists-content :
      (p : PartitionName) (s : t.State)
      → t.exists (fsck_file_path p) s ≡ is_some (content s (fsck_file_path p))
  pub read-content :
      (p : PartitionName) (c : Text) (s : t.State)
      → content s (fsck_file_path p) ≡ some c
      → t.read_to_string (fsck_file_path p) s ≡ ok c
  pub content-write :
      (p : PartitionName) (c j : Text) (s : t.State)
      → content (t.write (fsck_file_path p) c s).1 j
        ≡ (if text_eq (fsck_file_path p) j then some c else content s j)
  pub content-remove :
      (p : PartitionName) (j : Text) (s : t.State)
      → content (t.remove_file (fsck_file_path p) s).1 j
        ≡ (if text_eq (fsck_file_path p) j then none else content s j)
  pub entries-write :
      (p : PartitionName) (c : Text) (s : t.State)
      → K.entries (t.write (fsck_file_path p) c s).1 ≡ K.entries s
  pub entries-remove :
      (p : PartitionName) (s : t.State)
      → K.entries (t.remove_file (fsck_file_path p) s).1 ≡ K.entries s
  pub content-editenv :
      (args : List Text) (j : Text) (s : t.State) → content (t.editenv args s).1 j ≡ content s j
  pub set-succeeds :
      (key : BootEnvKey) (v : Text) (s : t.State)
      → one_line v ≡ true
      → K.Fits v
      → (t.editenv (lit "set" ∷ (key_text key ++ (lit "=" ++ v)) ∷ []) s).0
        ≡ ok (record { code = some (pos zero); stdout = []; stderr = []; status = K.status })

pub channel-apart :
    (p q : PartitionName) (c d : FsckChannel)
    → channel_for p ≡ c
    → channel_for q ≡ d
    → c ≢ d
    → (p =? q) ≡ false
channel-apart p q c d hp hq other = elim (Bool-cases (p =? q)) [
  | inl same ↦
      let e = (name_equality.beq_iff p q).0 same in
      let e' : channel_for p ≡ channel_for q = ap channel_for e in absurd (other (cc))
  | inr apart ↦ apart
]

module _ (t : GrubTools) (a : Applets) (K : GrubKeeps t) (F : FilesKeep t K) where
  unfoldable pub of_content : Option Text → Result BootEnvError (Option FsckRecord)
  unfolding decode_fsck_output
  of_content none = ok none
  of_content (some c) = ok (decode_fsck_output a c)

  unfoldable pub stored_on :
      FsckChannel → t.State → PartitionName → Result BootEnvError (Option FsckRecord)
  unfolding of_content
  stored_on env s p = record_of_stored a p (ok (value_at t a K s (fsck_status p)))
  stored_on file s p = of_content (F.content s (fsck_file_path p))

  -- A removal is the same whether the file is there or not.
  content-clear_fsck_file :
      (p : PartitionName) (j : Text) (s : t.State)
      → F.content (clear_fsck_file t p s).1 j
        ≡ (if text_eq (fsck_file_path p) j then none else F.content s j)
  unfolding clear_fsck_file
  content-clear_fsck_file p j s = elim (Option-cases (F.content s (fsck_file_path p))) [
    | inl gone ↦
        let no : t.exists (fsck_file_path p) s ≡ false = F.exists-content p s ∙ ap is_some gone in
        rw no (unchanged (text_eq (fsck_file_path p) j) refl gone)
    | inr (c, there) ↦
        let found : t.exists (fsck_file_path p) s ≡ true =
          F.exists-content p s ∙ ap is_some there in
        rw found (F.content-remove p j s)
  ]
    where
      unchanged :
          (hit : Bool)
          → text_eq (fsck_file_path p) j ≡ hit
          → F.content s (fsck_file_path p) ≡ none
          → F.content s j ≡ (if hit then none else F.content s j)
      unchanged true same gone =
          subst (λ path. F.content s path ≡ none) (text_eq→eq (fsck_file_path p) j same) gone
      unchanged false apart gone = refl

  value_at-clear_fsck_file :
      (p q : PartitionName) (s : t.State)
      → value_at t a K (clear_fsck_file t p s).1 (fsck_status q) ≡ value_at t a K s (fsck_status q)
  unfolding clear_fsck_file value_at
  value_at-clear_fsck_file p q s = elim (Bool-cases (t.exists (fsck_file_path p) s)) [
    | inl there ↦ rw there (rw (F.entries-remove p s) refl)
    | inr gone ↦ rw gone refl
  ]

  pub content-set_env :
      (p : PartitionName) (v : Option Text) (j : Text) (s : t.State)
      → F.content (grub_set_env t (fsck_status p) v s).1 j ≡ F.content s j
  unfolding grub_set_env run_grub_editenv
  content-set_env p none j s = F.content-editenv _ j s
  content-set_env p (some v) j s = F.content-editenv _ j s

  unfoldable pub clear_on : FsckChannel → PartitionName → t.State → t.State
  clear_on env p s = (grub_set_env t (fsck_status p) none s).1
  clear_on file p s = (clear_fsck_file t p s).1

  pub stored_on-clear_on :
      (c d : FsckChannel) (p q : PartitionName) (s : t.State)
      → channel_for p ≡ c
      → channel_for q ≡ d
      → stored_on d (clear_on c p s) q ≡ (if p =? q then ok none else stored_on d s q)
  unfolding stored_on clear_on of_content record_of_stored
  stored_on-clear_on env env p q s hp hq =
      rw (grub_set_env-unset t a K (fsck_status p) (fsck_status q) s, fsck_status-key p q)
        (ground arith)
  stored_on-clear_on env file p q s hp hq =
      rw (content-set_env p none (fsck_file_path q) s, channel-apart p q env file hp hq (λ h. cc))
        refl
  stored_on-clear_on file env p q s hp hq =
      rw (value_at-clear_fsck_file p q s, channel-apart p q file env hp hq (λ h. cc)) refl
  stored_on-clear_on file file p q s hp hq =
      rw (content-clear_fsck_file p (fsck_file_path q) s, text_eq-fsck_file_path p q) (ground arith)

  -- A read, by channel.
  unfoldable pub get_on :
      FsckChannel → PartitionName → t.State → Result BootEnvError (Option FsckRecord) × t.State
  get_on env p s = get_fsck_env a (grub_get_env t) p s
  get_on file p s = get_fsck_from_file t a p s

  get_on-env :
      (p : PartitionName) (s : t.State)
      → get_fsck_env a (grub_get_env t) p s
        ≡ (record_of_stored a p (ok (value_at t a K s (fsck_status p))), s)
  unfolding get_fsck_env
  get_on-env p s =
      ap (λ (r : Result BootEnvError (Option Text) × t.State). (record_of_stored a p r.0, r.1))
        (grub_get_env-value t a K (fsck_status p) s)

  -- A read of a file that is there gives its record and removes it, and any other read changes
  -- nothing.
  get_on-file :
      (p : PartitionName) (s : t.State)
      → get_fsck_from_file t a p s ≡ (
        of_content (F.content s (fsck_file_path p)),
        if is_some (F.content s (fsck_file_path p))
            then (t.remove_file (fsck_file_path p) s).1
            else s,
      )
  unfolding get_fsck_from_file of_content
  get_on-file p s = elim (Option-cases (F.content s (fsck_file_path p))) [
    | inl gone ↦
        let no : t.is_file (fsck_file_path p) s ≡ false = F.is_file-content p s ∙ ap is_some gone in
        rw (no, gone) refl
    | inr (c, there) ↦
        let found : t.is_file (fsck_file_path p) s ≡ true =
          F.is_file-content p s ∙ ap is_some there in
        rw (found, there, F.read-content p c s there) refl
  ]

  pub get_on-stored_on :
      (c : FsckChannel) (p : PartitionName) (s : t.State) → (get_on c p s).0 ≡ stored_on c s p
  unfolding get_on stored_on
  get_on-stored_on env p s = rw (get_on-env p s) refl
  get_on-stored_on file p s = rw (get_on-file p s) refl

  -- A read of another partition's record.
  pub stored_on-get_on :
      (c d : FsckChannel) (p q : PartitionName) (s : t.State)
      → (p =? q) ≡ false
      → stored_on d (get_on c p s).1 q ≡ stored_on d s q
  unfolding get_on stored_on value_at
  stored_on-get_on env env p q s apart = rw (get_on-env p s) refl
  stored_on-get_on env file p q s apart = rw (get_on-env p s) refl
  stored_on-get_on file env p q s apart =
      rw (get_on-file p s) (elim (Bool-cases (is_some (F.content s (fsck_file_path p)))) [
        | inl there ↦ rw there (rw (F.entries-remove p s) refl)
        | inr gone ↦ rw gone refl
      ])
  stored_on-get_on file file p q s apart =
      rw (get_on-file p s) (elim (Bool-cases (is_some (F.content s (fsck_file_path p)))) [
        | inl there ↦
            rw there
              (rw (F.content-remove p (fsck_file_path q) s, text_eq-fsck_file_path p q, apart) refl)
        | inr gone ↦ rw gone refl
      ])

  -- A read that gives no record leaves what is stored.
  pub stored_on-read :
      (c : FsckChannel) (p : PartitionName) (s : t.State)
      → gives_record (stored_on c s p) ≡ false
      → stored_on c (get_on c p s).1 p ≡ stored_on c s p
  unfolding get_on stored_on of_content
  stored_on-read env p s reads = rw (get_on-env p s) refl
  stored_on-read file p s reads =
      rw (get_on-file p s) (elim (Option-cases (F.content s (fsck_file_path p))) [
        | inl gone ↦ rw gone (rw gone refl)
        | inr (c, there) ↦
            let lost = no_record c (rw there at reads) in
            rw there (
              rw (F.content-remove p (fsck_file_path p) s, text_eq_refl (fsck_file_path p))
                (sym lost))
      ])
    where
      no_record :
          (c : Text)
          → gives_record (ok (decode_fsck_output a c)) ≡ false
          → of_content (some c) ≡ ok none
      no_record c h = elim (Option-cases (decode_fsck_output a c)) [
        | inl none_left ↦ ap ok none_left
        | inr (r, there) ↦ let given = rw there at h in cc
      ]
