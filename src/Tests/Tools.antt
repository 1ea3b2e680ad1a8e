-- ===== src/Tests/Tools.antt =====
-- The tools of the U-Boot environment over variables in memory, and applets that print no white
-- space.
use omnect_os_init.Base.{
  ◌≡◌, refl, ℕ, true, not, List, [], ◌∷◌, ◌++◌, Option, none, some, if◌then◌else◌, ok, all, map,
  ◌+◌, ◌-◌, arith,
}
use omnect_os_init.Base.Text.{Text, text_eq, is_whitespace, trim, trim_start, trim_end}
use omnect_os_init.Base.Text.Numbers.{pos}
use omnect_os_init.Bootloader.Packed.{IsPlain}
use omnect_os_init.Bootloader.Record.{Applets}
use omnect_os_init.Bootloader.Record.RoundTrip.{finished, IsWorking}
use omnect_os_init.Bootloader.Uboot.{Output, FwTools, uboot_boot_env}
use omnect_os_init.Bootloader.Env.{BootEnv, with_default_fsck}
use omnect_os_init.Bootloader.Laws.{KeepsRecords}
use omnect_os_init.Base.Text.Digits.{IsI32}
use omnect_os_init.Filesystem.ExitCode.{FsckExitCode}
use omnect_os_init.Partition.Name.{PartitionName}
use omnect_os_init.Bootloader.Uboot.Keeps.{
  FwKeeps, written, uboot_boot_env-KeepsRecords, uboot_boot_env-Takes,
}

abbrev pub Variables : Type 0
Variables = Text → Option Text

-- What the print of a variable gives.
abbrev pub print_value : Option Text → Output
print_value none = record { code = some (pos 1); stdout = []; stderr = []; status = [] }
print_value (some v) = record {
  code = some (pos 0);
  stdout = v ++ b'\n' ∷ [];
  stderr = [];
  status = [];
}

abbrev pub done : Output
done = record { code = some (pos 0); stdout = []; stderr = []; status = [] }

abbrev pub write_value : Option Text → Option Text
write_value none = none
write_value (some v) = written v

abbrev pub fw_memory : FwTools
fw_memory = record {
  State = Variables;
  printenv = λ var s. (ok (print_value (s var)), s);
  setenv = λ var v s. (ok done, λ j. if text_eq var j then write_value v else s j);
}

abbrev pub fw_memory_keeps : FwKeeps fw_memory
fw_memory_keeps = record {
  variable = λ s. s;
  status = [];
  complaint = λ var. [];
  print-set = λ var v s set. rw set refl;
  print-unset = λ var s unset. rw unset refl;
  unset = λ var j s. refl;
  set = λ var j v s. refl;
}

-- A code of bytes as characters far behind white space.
abbrev pub shifted : List ℕ → Text
shifted b = b'x' ∷ map (λ (c : ℕ). c + 0x4000) b

abbrev pub unshifted : Text → List ℕ
unshifted [] = []
unshifted (c ∷ s) = map (λ (c : ℕ). c - 0x4000) s

pub unshifted-shifted : (b : List ℕ) → unshifted (shifted b) ≡ b
unshifted-shifted b = go b
  where
    go : (b : List ℕ) → map (λ (c : ℕ). c - 0x4000) (map (λ (c : ℕ). c + 0x4000) b) ≡ b
    go [] = refl
    go (c ∷ b) = let first : c + 0x4000 - 0x4000 ≡ c = omega arith in rw (first, go b) refl

pub all-shifted :
    (b : List ℕ) → all (λ c. not (is_whitespace c)) (map (λ (c : ℕ). c + 0x4000) b) ≡ true
unfolding is_whitespace
all-shifted [] = refl
all-shifted (c ∷ b) = ground (arith, all-shifted b)

trim_end-plain :
    (s : Text) → all (λ c. not (is_whitespace c)) s ≡ true → trim_end is_whitespace s ≡ s
unfolding trim_end
trim_end-plain [] h = refl
trim_end-plain (c ∷ []) h = ground arith
trim_end-plain (c ∷ d ∷ s) h = rw (trim_end-plain (d ∷ s) (ground arith)) refl

pub trim-shifted : (b : List ℕ) → trim (shifted b) ≡ shifted b
unfolding trim trim_start is_whitespace
trim-shifted b = trim_end-plain (shifted b) (all-shifted b)

abbrev pub plain_applets : Applets
plain_applets = record {
  gzip = λ b. finished b;
  base64 = λ b. finished (shifted b);
  base64_decode = λ b. finished (unshifted b);
  gunzip = λ b. finished b;
  bytes = λ t. t;
  lossy = λ b. b;
}

abbrev pub plain_applets-IsWorking : IsWorking plain_applets
plain_applets-IsWorking = record {
  compressed = λ b. b;
  encoded = shifted;
  gzip-runs = λ b. refl;
  gunzip-runs = λ b. refl;
  base64-runs = λ b. refl;
  base64_decode-runs = λ b. rw (trim-shifted b, unshifted-shifted b) refl;
  lossy-bytes = λ t. refl;
}

pub plain_applets-IsPlain : IsPlain plain_applets plain_applets-IsWorking
unfolding is_whitespace
plain_applets-IsPlain = record {
  no-space = λ b. rw (trim-shifted b) (all-shifted b);
  filled = λ b. rw (trim-shifted b) refl;
}

abbrev pub uboot : BootEnv
uboot = uboot_boot_env fw_memory plain_applets

abbrev pub uboot_keeps : KeepsRecords uboot
uboot_keeps =
    uboot_boot_env-KeepsRecords fw_memory plain_applets fw_memory_keeps plain_applets-IsWorking
      plain_applets-IsPlain

-- No variable is set.
pub no_variables : uboot.State
unfolding uboot_boot_env with_default_fsck
no_variables = λ var. none

pub uboot_takes :
    (p : PartitionName) (code : FsckExitCode) (output : Text)
    → IsI32 code.bits
    → uboot_keeps.Takes p code output
uboot_takes =
    uboot_boot_env-Takes fw_memory plain_applets fw_memory_keeps plain_applets-IsWorking
      plain_applets-IsPlain
