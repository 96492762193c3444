-- ===== src/Status.antt =====
-- include/salt.h: `enum salt_status` and the limits; and the optional error buffer that
-- `set_error` (src/salt.c), the two `cli_set_error` (src/cli/parse.c, src/cli/output.c) and
-- `salt_cli_set_error` (src/cli/stream.c) fill.
use Prim.Native.Char.{code}
use Prim.Native.String.{String}
use salt.Base.{ℕ, ◌-◌, ◌*◌, [], ◌∷◌, Bool, true, false, ◌==◌, if◌then◌else◌, Bytes, take}

pub data Status : Type 0 where
  salt_ok salt_err_input salt_err_crypto salt_err_internal salt_err_io salt_err_signal : Status

-- The exit codes of the enumeration.
pub status_code : Status → ℕ
status_code salt_ok = 0
status_code salt_err_input = 1
status_code salt_err_crypto = 2
status_code salt_err_internal = 3
status_code salt_err_io = 4
status_code salt_err_signal = 5

-- `rc == SALT_OK`
abbrev pub is_ok : Status → Bool
is_ok salt_ok = true
is_ok _ = false

abbrev pub salt_max_message_len : ℕ
salt_max_message_len = 1024 * 1024

abbrev pub salt_max_key_input_len : ℕ
salt_max_key_input_len = 16 * 1024

abbrev pub salt_max_key_id_len : ℕ
salt_max_key_id_len = 256

abbrev pub salt_github_secret_max_value_len : ℕ
salt_github_secret_max_value_len = 48 * 1024

-- The bytes of an ASCII literal.
abbrev pub codes : String → Bytes
codes String.[] = []
codes (String.◌∷◌ c s) = code c ∷ codes s

-- `char *error, size_t error_size`, with the C string it holds; NULL is size 0, since every
-- writer treats the two alike.
pub record ErrorBuffer : Type 0 where
  pub size : ℕ
  pub text : Bytes

-- `vsnprintf` keeps the first `size - 1` bytes of the message.
unfoldable pub set_error : Bytes → ErrorBuffer → ErrorBuffer
set_error message e = if e.size == 0 then e else record e { text = take (e.size - 1) message }
