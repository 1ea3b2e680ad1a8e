-- ===== src/Bootloader/Grub/Paths.antt =====
-- The paths of the fsck records of src/bootloader/grub.rs tell the partitions apart.
use omnect_os_init.Base.{
  ◌≡◌, refl, sym, ◌∙◌, ap, true, List, [], ◌∷◌, Option, none, some, if◌then◌else◌, Bool-cases, inl,
  inr,
}
use omnect_os_init.Base.Equality.{◌=?◌}
use omnect_os_init.Base.Text.{Text, lit, text_eq}
use omnect_os_init.Base.Text.Laws.{text_eq→eq, text_eq_refl}
use omnect_os_init.Bootloader.Grub.{fsck_file_path}
use omnect_os_init.Partition.Name.{
  PartitionName, boot, root_a, root_b, root_current, factory, cert, etc, data_part, extended,
  name_text, name_equality,
}

abbrev all_names : List PartitionName
all_names = boot ∷ root_a ∷ root_b ∷ root_current ∷ factory ∷ cert ∷ etc ∷ data_part ∷ extended ∷ []

abbrev name_among : List PartitionName → Text → Option PartitionName
name_among [] t = none
name_among (p ∷ ps) t =
    let rest = name_among ps t in if text_eq (fsck_file_path p) t then some p else rest

name_among-fsck_file_path : (p : PartitionName) → name_among all_names (fsck_file_path p) ≡ some p
unfolding fsck_file_path name_text lit text_eq
name_among-fsck_file_path boot = refl
name_among-fsck_file_path root_a = refl
name_among-fsck_file_path root_b = refl
name_among-fsck_file_path root_current = refl
name_among-fsck_file_path factory = refl
name_among-fsck_file_path cert = refl
name_among-fsck_file_path etc = refl
name_among-fsck_file_path data_part = refl
name_among-fsck_file_path extended = refl

fsck_file_path-injective : (p q : PartitionName) → fsck_file_path p ≡ fsck_file_path q → p ≡ q
fsck_file_path-injective p q same =
    let found : name_among all_names (fsck_file_path p) ≡ name_among all_names (fsck_file_path q) =
      ap (name_among all_names) same in
    let there = sym (name_among-fsck_file_path p) ∙ (found ∙ name_among-fsck_file_path q) in cc

-- The paths of two partitions are one path exactly when the partitions are one partition.
pub text_eq-fsck_file_path :
    (p q : PartitionName) → text_eq (fsck_file_path p) (fsck_file_path q) ≡ (p =? q)
text_eq-fsck_file_path p q = elim (Bool-cases (text_eq (fsck_file_path p) (fsck_file_path q))) [
  | inl same ↦
      same
      ∙ sym ((name_equality.beq_iff p q).1 (fsck_file_path-injective p q (text_eq→eq _ _ same)))
  | inr other ↦ elim (Bool-cases (p =? q)) [
    | inl same ↦
        let e = (name_equality.beq_iff p q).0 same in
        let t : text_eq (fsck_file_path p) (fsck_file_path q) ≡ true =
          rw e (text_eq_refl (fsck_file_path q)) in
        cc
    | inr apart ↦ other ∙ sym apart
  ]
]
