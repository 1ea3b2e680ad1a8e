-- ===== src/Bootloader/Key/Distinct.antt =====
-- The texts of the keys of src/bootloader/mod.rs tell the keys apart.
use omnect_os_init.Base.{
  ◌≡◌, refl, sym, ◌∙◌, ap, true, List, [], ◌∷◌, Option, none, some, Bool-cases, if◌then◌else◌, inl,
  inr,
}
use omnect_os_init.Base.Equality.{◌=?◌, =?_refl}
use omnect_os_init.Base.Text.{Text, lit, text_eq}
use omnect_os_init.Base.Text.Laws.{text_eq→eq, text_eq_refl}
use omnect_os_init.Bootloader.Key.{
  BootEnvKey, validate_update, validate_update_failed, bootloader_updated, fsck_status,
  first_boot_done, extra_boot_args, factory_reset, factory_reset_last_error, flash_mode,
  flash_mode_devpath, flash_mode_url, flash_mode_url_sha256, key_text, key_equality,
}
use omnect_os_init.Partition.Name.{
  PartitionName, boot, root_a, root_b, root_current, factory, cert, etc, data_part, extended,
  name_text, name_equality,
}

abbrev all_keys : List BootEnvKey
all_keys =
    validate_update
    ∷ validate_update_failed
    ∷ bootloader_updated
    ∷ first_boot_done
    ∷ extra_boot_args
    ∷ factory_reset
    ∷ factory_reset_last_error
    ∷ flash_mode
    ∷ flash_mode_devpath
    ∷ flash_mode_url
    ∷ flash_mode_url_sha256
    ∷ fsck_status boot
    ∷ fsck_status root_a
    ∷ fsck_status root_b
    ∷ fsck_status root_current
    ∷ fsck_status factory
    ∷ fsck_status cert
    ∷ fsck_status etc
    ∷ fsck_status data_part
    ∷ fsck_status extended
    ∷ []

-- The first key of a list that has a text.
abbrev key_among : List BootEnvKey → Text → Option BootEnvKey
key_among [] t = none
key_among (k ∷ ks) t = let rest = key_among ks t in if text_eq (key_text k) t then some k else rest

key_among-key_text : (k : BootEnvKey) → key_among all_keys (key_text k) ≡ some k
unfolding key_text name_text lit text_eq
key_among-key_text validate_update = refl
key_among-key_text validate_update_failed = refl
key_among-key_text bootloader_updated = refl
key_among-key_text (fsck_status boot) = refl
key_among-key_text (fsck_status root_a) = refl
key_among-key_text (fsck_status root_b) = refl
key_among-key_text (fsck_status root_current) = refl
key_among-key_text (fsck_status factory) = refl
key_among-key_text (fsck_status cert) = refl
key_among-key_text (fsck_status etc) = refl
key_among-key_text (fsck_status data_part) = refl
key_among-key_text (fsck_status extended) = refl
key_among-key_text first_boot_done = refl
key_among-key_text extra_boot_args = refl
key_among-key_text factory_reset = refl
key_among-key_text factory_reset_last_error = refl
key_among-key_text flash_mode = refl
key_among-key_text flash_mode_devpath = refl
key_among-key_text flash_mode_url = refl
key_among-key_text flash_mode_url_sha256 = refl

-- Keys with one text are one key.
key_text-injective : (k j : BootEnvKey) → key_text k ≡ key_text j → k ≡ j
key_text-injective k j same =
    let found : key_among all_keys (key_text k) ≡ key_among all_keys (key_text j) =
      ap (key_among all_keys) same in
    let there = sym (key_among-key_text k) ∙ (found ∙ key_among-key_text j) in cc

-- The texts of two keys are one text exactly when the keys are one key.
pub text_eq-key_text : (k j : BootEnvKey) → text_eq (key_text k) (key_text j) ≡ (k =? j)
text_eq-key_text k j = elim (Bool-cases (text_eq (key_text k) (key_text j))) [
  | inl same ↦
      same ∙ sym ((key_equality.beq_iff k j).1 (key_text-injective k j (text_eq→eq _ _ same)))
  | inr other ↦ elim (Bool-cases (k =? j)) [
    | inl same ↦
        let e = (key_equality.beq_iff k j).0 same in
        absurd (
          let t : text_eq (key_text k) (key_text j) ≡ true = rw e (text_eq_refl (key_text j)) in cc)
    | inr apart ↦ other ∙ sym apart
  ]
]

pub fsck_status-key : (p q : PartitionName) → (fsck_status p =? fsck_status q) ≡ (p =? q)
fsck_status-key p q = elim (Bool-cases (p =? q)) [
  | inl same ↦
      let e = (name_equality.beq_iff p q).0 same in
      rw e ((key_equality.beq_iff (fsck_status q) (fsck_status q)).1 refl ∙ sym (=?_refl q))
  | inr apart ↦ elim (Bool-cases (fsck_status p =? fsck_status q)) [
    | inl same ↦
        let e = (key_equality.beq_iff (fsck_status p) (fsck_status q)).0 same in
        let e' : p ≡ q = cc in let back = (name_equality.beq_iff p q).1 e' in cc
    | inr other ↦ other ∙ sym apart
  ]
]
