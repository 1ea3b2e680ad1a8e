-- ===== src/Config/Cmdline.antt =====
-- `CmdlineConfig` of src/config/mod.rs: the parameters of the kernel command line.
use omnect_os_init.Base.{ℕ, List, [], ◌∷◌, Option, none, some, ◌==◌, Bool, Result, ok, err}
use omnect_os_init.Base.Dict.{Dict, insert, lookup}
use omnect_os_init.Base.Equality.{text_equality}
use omnect_os_init.Base.Text.{Text, split_once, split_whitespace, trim_start, trim_end}
use omnect_os_init.Error.{IoError, InitramfsError, config, cmdline_read_failed}

abbrev pub Cmdline : Type 0
Cmdline = Dict Text Text

abbrev is_quote : ℕ → Bool
is_quote c = c == b'"'

-- `trim_matches('"')`
unquoted : Text → Text
unfolding trim_start trim_end
unquoted value = trim_end is_quote (trim_start is_quote value)

-- A bare flag has the empty value.
insert_token : Text → Cmdline → Cmdline
unfolding split_once unquoted insert
insert_token token params = elim (split_once b'=' token) [
  | some (key, value) ↦ insert key (unquoted value) params
  | none ↦ insert token [] params
]

insert_tokens : List Text → Cmdline → Cmdline
unfolding insert_token
insert_tokens [] params = params
insert_tokens (token ∷ rest) params = insert_tokens rest (insert_token token params)

-- `CmdlineConfig::parse`
unfoldable pub parse_cmdline : Text → Cmdline
unfolding insert_tokens split_whitespace
parse_cmdline cmdline = insert_tokens (split_whitespace cmdline) []

-- `CmdlineConfig::get`
unfoldable pub get_param : Text → Cmdline → Option Text
unfolding lookup
get_param key params = lookup key params

-- `Config::load`, from what reading /proc/cmdline gives.
unfoldable pub load_config : Result IoError Text → Result InitramfsError Cmdline
unfolding parse_cmdline
load_config (err e) = err (config (cmdline_read_failed e))
load_config (ok raw) = ok (parse_cmdline raw)
