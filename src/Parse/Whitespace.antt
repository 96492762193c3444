-- ===== src/Parse/Whitespace.antt =====
-- src/cli/parse.c: `cli_is_ascii_ws`, `salt_cli_trim_whitespace_inplace`, `json_skip_ws` and
-- `skip_leading_ascii_ws`. An array is the list of its bytes; a read or a write outside of it is a
-- fault, `none`. A cursor is the list of the bytes from it up to the terminating NUL.
pub mod Trim
pub use salt.Base.{◌>>=◌}
use salt.Base.{
  ℕ, zero, suc, ◌+◌, ◌-◌, ◌≤◌, arith, Bool, ◌||◌, Option, none, some, List, [], ◌∷◌, ◌==◌, ltb,
  if◌then◌else◌, Bytes, length, get_elem?, store,
}

unfoldable pub cli_is_ascii_ws : ℕ → Bool
cli_is_ascii_ws c = c == b' ' || c == 9 || c == 10 || c == 13 || c == 11 || c == 12

-- `json_skip_ws` and `skip_leading_ascii_ws`: the cursor behind the leading whitespace.
unfoldable pub skip_ws : Bytes → Bytes
skip_ws [] = []
skip_ws (c ∷ cs) = if cli_is_ascii_ws c then skip_ws cs else c ∷ cs

-- `memchr(value, '\0', n)` as an index.
unfoldable pub memchr_nul : Bytes → ℕ → Option ℕ
memchr_nul value zero = none
memchr_nul [] (suc n) = none
memchr_nul (c ∷ cs) (suc n) =
    if c == 0 then some 0 else elim (memchr_nul cs n) [ none ↦ none | some i ↦ some (suc i) ]

-- `while (start < len && is_ws(value[start])) ++start`, with `len - start` rounds left.
unfoldable pub scan_start : ℕ → Bytes → ℕ → Option ℕ
scan_start zero value start = some start
scan_start (suc left) value start = do
  c ← get_elem? value start
  let rest = scan_start left value (start + 1)
  if cli_is_ascii_ws c then rest else some start

-- `for (i = 0; i <= len - start; ++i) value[i] = value[start + i]`, with `rounds` rounds left.
unfoldable pub shift_down : ℕ → ℕ → ℕ → Bytes → Option Bytes
shift_down zero start i value = some value
shift_down (suc rounds) start i value = do
  c ← get_elem? value (start + i)
  value' ← store value i c
  shift_down rounds start (i + 1) value'

-- `while (end > 0 && is_ws(value[end - 1])) --end`
unfoldable pub scan_end : Bytes → ℕ → Option ℕ
scan_end value zero = some 0
scan_end value (suc end) = do
  c ← get_elem? value end
  let rest = scan_end value end
  if cli_is_ascii_ws c then rest else some (suc end)

-- The length in front of the NUL; an array with none gets one in its last byte.
unfoldable pub terminate : Bytes → ℕ → Option (Bytes × ℕ)
unfolding memchr_nul
terminate value size = elim (memchr_nul value size) [
  | none ↦ do value' ← store value (size - 1) 0; some (value', size - 1)
  | some len ↦ some (value, len)
]

unfoldable pub salt_cli_trim_whitespace_inplace : Bytes → ℕ → Option Bytes
unfolding terminate scan_start shift_down scan_end
salt_cli_trim_whitespace_inplace value size = if size == 0 then some value else do
  (value, len) ← terminate value size
  start ← scan_start len value 0
  moved ← (if ltb 0 start then shift_down (len - start + 1) start 0 value else some value)
  end ← scan_end moved (len - start)
  store moved end 0

pub length-skip_ws-le : (s : Bytes) → length (skip_ws s) ≤ length s
unfolding skip_ws
length-skip_ws-le [] = omega arith
length-skip_ws-le (c ∷ cs) = ground (arith, length-skip_ws-le cs)
