-- ===== src/Tests/Records.antt =====
-- A run of the fsck record through applets that are written out.
use omnect_os_init.Base.{
  ◌≡◌, refl, ap, ℕ, Bool, false, List, [], ◌∷◌, ◌++◌, Option, none, some, arith,
}
use omnect_os_init.Base.Text.{Text, lit, trim, trim_start, trim_end, unsnoc, is_whitespace}
use omnect_os_init.Base.Text.Laws.{unsnoc-append}
use omnect_os_init.Base.Text.Numbers.{pos}
use omnect_os_init.Bootloader.Record.{Applets, encode_fsck_output, decode_fsck_output}
use omnect_os_init.Bootloader.Record.RoundTrip.{
  finished, IsWorking, decode_fsck_output-encode_fsck_output,
}

trim_end-append :
    (p : ℕ → Bool) (s : Text) (c : ℕ) → p c ≡ false → trim_end p (s ++ c ∷ []) ≡ s ++ c ∷ []
unfolding trim_end
trim_end-append p [] c h = rw h refl
trim_end-append p (d ∷ []) c h = rw (trim_end-append p [] c h) refl
trim_end-append p (d ∷ e ∷ s) c h = rw (trim_end-append p (e ∷ s) c h) refl

-- A code without white space at its ends: the bytes between two marks.
abbrev marked : List ℕ → List ℕ
marked b = 33 ∷ (b ++ 33 ∷ [])

abbrev without_last : Option (Text × ℕ) → List ℕ
without_last none = []
without_last (some (i, l)) = i

unmarked : List ℕ → List ℕ
unmarked [] = []
unmarked (c ∷ s) = without_last (unsnoc s)

abbrev applets : Applets
applets = record {
  gzip = λ b. finished b;
  base64 = λ b. finished (marked b);
  base64_decode = λ b. finished (unmarked b);
  gunzip = λ b. finished b;
  bytes = λ t. t;
  lossy = λ b. b;
}

trim-marked : (b : List ℕ) → trim (marked b) ≡ marked b
unfolding trim trim_start is_whitespace
trim-marked b = trim_end-append is_whitespace (33 ∷ b) 33 (unfold is_whitespace in refl)

unmarked-marked : (b : List ℕ) → unmarked (marked b) ≡ b
unfolding unmarked
unmarked-marked b = ap without_last (unsnoc-append b 33)

applets-IsWorking : IsWorking applets
applets-IsWorking = record {
  compressed = λ b. b;
  encoded = marked;
  gzip-runs = λ b. refl;
  gunzip-runs = λ b. refl;
  base64-runs = λ b. refl;
  base64_decode-runs = λ b. rw (trim-marked b, unmarked-marked b) refl;
  lossy-bytes = λ t. refl;
}

round_trip_example :
    decode_fsck_output applets (encode_fsck_output applets (pos 12) (lit "errors left"))
    ≡ some (record { exit_code = record { bits = pos 12 }; output = lit "errors left" })
round_trip_example =
    decode_fsck_output-encode_fsck_output applets (pos 12) (lit "errors left") applets-IsWorking
      (omega arith)
