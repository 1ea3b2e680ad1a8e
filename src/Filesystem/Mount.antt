-- ===== src/Filesystem/Mount.antt =====
-- src/filesystem/mount.rs
use omnect_os_init.Base.{
  Bool, true, false, List, [], ◌∷◌, ◌++◌, Option, none, some, if◌then◌else◌, any, Result, ok, err,
}
use omnect_os_init.Base.Exec.{Exec, map_error, ◌>>◌}
use omnect_os_init.Base.Text.{Text, lit, text_eq, is_empty, split_whitespace}
use omnect_os_init.Bootloader.Grub.{lines}
use omnect_os_init.Error.{FilesystemError, mount_failed, unmount_failed}
use omnect_os_init.Filesystem.System.{System, MsFlags, no_flags, MountCall}
use omnect_os_init.Filesystem.Types.{FsType, ext4, vfat, tmpfs, efivarfs, devpts, fs_text}

pub record MountOptions : Type 0 where
  pub fstype : Option FsType
  pub flags : MsFlags
  pub extra : Option Text

unfoldable pub vfat_boot_data : Text
unfolding lit
vfat_boot_data = lit "gid=6,fmask=0002,dmask=0002,allow_utime=0020"

abbrev pub default_options : MountOptions
default_options = record { fstype = none; flags = no_flags; extra = none }

abbrev pub ext4_readonly : MountOptions
ext4_readonly = record {
  fstype = some ext4;
  flags = record no_flags { rdonly = true };
  extra = none;
}

abbrev pub ext4_readwrite : MountOptions
ext4_readwrite = record { fstype = some ext4; flags = no_flags; extra = none }

abbrev pub vfat_options : MountOptions
vfat_options = record { fstype = some vfat; flags = no_flags; extra = some vfat_boot_data }

abbrev pub bind_options : MountOptions
bind_options = record { fstype = none; flags = record no_flags { bind = true }; extra = none }

abbrev pub tmpfs_options : MountOptions
tmpfs_options = record { fstype = some tmpfs; flags = no_flags; extra = none }

abbrev pub efivarfs_options : MountOptions
efivarfs_options = record { fstype = some efivarfs; flags = no_flags; extra = none }

abbrev pub devpts_options : MountOptions
devpts_options = record { fstype = some devpts; flags = no_flags; extra = none }

abbrev pub readonly : MountOptions → MountOptions
readonly o = record o { flags = record o.flags { rdonly = true } }

abbrev pub noatime : MountOptions → MountOptions
noatime o = record o { flags = record o.flags { noatime = true } }

abbrev pub nodiratime : MountOptions → MountOptions
nodiratime o = record o { flags = record o.flags { nodiratime = true } }

abbrev pub nosuid : MountOptions → MountOptions
nosuid o = record o { flags = record o.flags { nosuid = true } }

abbrev pub nodev : MountOptions → MountOptions
nodev o = record o { flags = record o.flags { nodev = true } }

abbrev pub noexec : MountOptions → MountOptions
noexec o = record o { flags = record o.flags { noexec = true } }

abbrev pub with_data : Text → MountOptions → MountOptions
with_data extra o = record o { extra = some extra }

pub record MountPoint : Type 0 where
  pub source : Text
  pub target : Text
  pub options : MountOptions

type_text : Option FsType → Option Text
unfolding fs_text
type_text none = none
type_text (some t) = some (fs_text t)

-- The arguments of mount(2) for a mount point; an empty source is no source.
unfoldable pub mount_call : MountPoint → MountCall
unfolding type_text
mount_call mp = record {
  source = if is_empty mp.source then none else some mp.source;
  target = mp.target;
  fstype = type_text mp.options.fstype;
  flags = mp.options.flags;
  options = mp.options.extra;
}

second_word_is : Text → Text → Bool
unfolding text_eq split_whitespace
second_word_is path line = elim (split_whitespace line) [
  | _ ∷ point ∷ _ ↦ text_eq point path
  | _ ↦ false
]

module _ (S : System) where
  abbrev pub Fs : Type 0 → Type 0
  Fs A = Exec FilesystemError S.State A

  unfoldable pub mount : MountPoint → Fs (Unit {0})
  unfolding mount_call
  mount mp = map_error (mount_failed mp.source mp.target) (S.nix_mount (mount_call mp))

  unfoldable pub mount_tmpfs : Text → MsFlags → Option Text → Fs (Unit {0})
  unfolding mount fs_text
  mount_tmpfs target flags extra = mount (record {
    source = fs_text tmpfs;
    target = target;
    options = record { fstype = some tmpfs; flags = flags; extra = extra };
  })

  unfoldable pub mount_bind : Text → Text → Fs (Unit {0})
  unfolding mount
  mount_bind source target =
      mount (record { source = source; target = target; options = bind_options })

  make_private : Text → Fs (Unit {0})
  make_private target =
      map_error (λ e. mount_failed [] target (lit "Failed to make mount private: " ++ e))
        (S.nix_mount (record {
          source = none;
          target = target;
          fstype = none;
          flags = record no_flags { private_mount = true; recursive = true };
          options = none;
        }))

  unfoldable pub mount_bind_private : Text → Text → Fs (Unit {0})
  unfolding mount_bind make_private
  mount_bind_private source target = do mount_bind source target; make_private target

  unfoldable pub umount : Text → Fs (Unit {0})
  umount path = map_error (unmount_failed path) (S.nix_umount path)

  -- Every path is tried, the last first; the error of the last try that failed is returned.
  unmount_all : List Text → Option FilesystemError → S.State → Option FilesystemError × S.State
  unfolding umount
  unmount_all [] last s = (last, s)
  unmount_all (path ∷ before) last s =
      let (r, s') = umount path s in unmount_all before (elim r [ ok _ ↦ last | err e ↦ some e ]) s'

  unmount_result : Option FilesystemError × S.State → Result FilesystemError (Unit {0}) × S.State
  unmount_result (none, s) = (ok tt, s)
  unmount_result (some e, s) = (err e, s)

  -- The list that is drained is given with its last path first.
  unfoldable pub unmount_tracked : List Text → Fs (Unit {0})
  unfolding unmount_all unmount_result
  unmount_tracked newest_first s = unmount_result (unmount_all newest_first none s)

  unfoldable pub is_path_mounted : Text → S.State → Result FilesystemError Bool
  unfolding second_word_is lines
  is_path_mounted path s = elim (S.read_to_string (lit "/proc/mounts") s) [
    | err e ↦ err (mount_failed [] path (lit "Failed to read /proc/mounts: " ++ e.message))
    | ok mounts ↦ ok (any (second_word_is path) (lines mounts))
  ]
