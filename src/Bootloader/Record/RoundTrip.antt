-- ===== src/Bootloader/Record/RoundTrip.antt =====
-- Writing an fsck record of src/bootloader/types.rs and reading it back.
use omnect_os_init.Base.{
  ◌≡◌, refl, ℕ, true, false, List, [], ◌∷◌, ◌++◌, some, Result, ok, all, arith,
}
use omnect_os_init.Base.Text.{Text, lit, is_ascii_digit, trim, split_once}
use omnect_os_init.Base.Text.Digits.{
  is_number_char, decimal_ℤ-all, trim-decimal_ℤ, IsI32, parse_i32-decimal_ℤ,
}
use omnect_os_init.Base.Text.Numbers.{ℤ, decimal_ℤ}
use omnect_os_init.Bootloader.Record.{
  Finished, Applets, encoded_text, encode_compressed, record_of_parts, record_of_unpacked,
  encode_fsck_output, unpack_compressed, unpack_decoded, unpack_fsck_text, record_of_code,
  parse_fsck_text, decode_fsck_output,
}
use omnect_os_init.Error.{IoError}

-- A run that succeeded with this output.
abbrev pub finished : List ℕ → Result IoError Finished
finished bytes = ok (record { success = true; stdout = bytes })

-- Applets that run and undo each other; the base64 text survives being read as a text and trimmed.
pub record IsWorking (a : Applets) : Type 0 where
  pub compressed : List ℕ → List ℕ
  pub encoded : List ℕ → List ℕ
  pub gzip-runs : (b : List ℕ) → a.gzip b ≡ finished (compressed b)
  pub gunzip-runs : (b : List ℕ) → a.gunzip (compressed b) ≡ finished b
  pub base64-runs : (b : List ℕ) → a.base64 b ≡ finished (encoded b)
  pub base64_decode-runs :
      (b : List ℕ) → a.base64_decode (a.bytes (trim (a.lossy (encoded b)))) ≡ finished b
  pub lossy-bytes : (t : Text) → a.lossy (a.bytes t) ≡ t

split_once-append :
    (d : ℕ) (s t : Text)
    → all is_number_char s ≡ true
    → is_number_char d ≡ false
    → split_once d (s ++ d ∷ t) ≡ some (s, t)
unfolding split_once
split_once-append d [] t h k = ground arith
split_once-append d (c ∷ s) t h k = rw (split_once-append d s t (ground arith) k) (ground arith)

-- The text of a record, with an exit code that fits an `i32` and any output, parses to the record.
pub parse_fsck_text-append :
    (code : ℤ) (output : Text)
    → IsI32 code
    → parse_fsck_text (decimal_ℤ code ++ b'\n' ∷ output)
      ≡ some (record { exit_code = record { bits = code }; output = output })
unfolding parse_fsck_text record_of_parts record_of_code
parse_fsck_text-append code output fits =
    rw
      (
        split_once-append b'\n' (decimal_ℤ code) output (decimal_ℤ-all code)
            (unfold is_ascii_digit in refl),
        trim-decimal_ℤ code,
        parse_i32-decimal_ℤ code fits,
      )
      refl

-- With applets that run and undo each other, what was packed unpacks to the text of the record.
pub unpack_fsck_text-encode_fsck_output :
    (a : Applets) (code : ℤ) (output : Text)
    → IsWorking a
    → unpack_fsck_text a (encode_fsck_output a code output)
      ≡ ok (some (decimal_ℤ code ++ b'\n' ∷ output))
unfolding encode_fsck_output encode_compressed encoded_text unpack_fsck_text unpack_decoded
    unpack_compressed lit
unpack_fsck_text-encode_fsck_output a code output w =
    let raw : Text = decimal_ℤ code ++ b'\n' ∷ output in
    let b : List ℕ = a.bytes raw in
    rw
      (
        w.gzip-runs b,
        w.base64-runs (w.compressed b),
        w.base64_decode-runs (w.compressed b),
        w.gunzip-runs b,
        w.lossy-bytes raw,
      )
      refl

-- With applets that run and undo each other, the packed text is what base64 prints.
pub encode_fsck_output-encoded :
    (a : Applets) (code : ℤ) (output : Text) (w : IsWorking a)
    → encode_fsck_output a code output
      ≡ trim (a.lossy (w.encoded (w.compressed (a.bytes (decimal_ℤ code ++ b'\n' ∷ output)))))
unfolding encode_fsck_output encode_compressed encoded_text lit
encode_fsck_output-encoded a code output w =
    let b : List ℕ = a.bytes (decimal_ℤ code ++ b'\n' ∷ output) in
    rw (w.gzip-runs b, w.base64-runs (w.compressed b)) refl

-- With applets that run and undo each other, decoding undoes encoding, for every exit code that
-- fits an `i32` and every output.
pub decode_fsck_output-encode_fsck_output :
    (a : Applets) (code : ℤ) (output : Text)
    → IsWorking a
    → IsI32 code
    → decode_fsck_output a (encode_fsck_output a code output)
      ≡ some (record { exit_code = record { bits = code }; output = output })
unfolding decode_fsck_output record_of_unpacked
decode_fsck_output-encode_fsck_output a code output w fits =
    rw (unpack_fsck_text-encode_fsck_output a code output w)
      (parse_fsck_text-append code output fits)
