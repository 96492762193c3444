-- ===== src/Seal/Sodium.antt =====
-- What src/salt.c and src/cli/input.c call outside of the repository: libsodium and the allocator, as an interface. A
-- call that can fail says so in its result, and a call that fills a buffer gives its new contents.
use salt.Base.{
  ◌∷◌, ◌++◌, ℕ, ◌+◌, ◌*◌, ◌/◌, ◌≤◌, ◌≡◌, Bool, true, Option, some, Bytes, length, wiped, IsCstr,
}
use salt.Status.{salt_max_message_len}

-- `SIZE_MAX` of a 64-bit `size_t`.
abbrev pub size_max : ℕ
size_max = 18446744073709551615

pub data Variant : Type 0 where
  original original_no_padding : Variant

-- The buffers that are allocated, locked and released: two of src/salt.c, and those of src/cli/.
pub data Region : Type 0 where
  key_scratch ciphertext_buffer stdin_buffer argv_buffer trimmed_buffer output_buffer state_buffer :
      Region

-- `sodium_base642bin`: whether it returned 0, the bytes that it stored at the front of the buffer,
-- `*bin_len`, and `*b64_end` as a distance from the start of the text.
pub record Decoding : Type 0 where
  pub returned_zero : Bool
  pub stored : Bytes
  pub bin_len : ℕ
  pub end : Option ℕ

pub record Sodium : Type 0 where
  -- `crypto_box_PUBLICKEYBYTES` and `crypto_box_SEALBYTES`
  pub public_key_bytes : ℕ
  pub seal_bytes : ℕ
  -- `sodium_base64_ENCODED_LEN(n, sodium_base64_VARIANT_ORIGINAL)`
  pub encoded_len : ℕ → ℕ
  -- `sodium_init() < 0`
  pub init_fails : Bool
  -- `sodium_mlock(...) == 0`
  pub mlock : Region → Bool
  -- `sodium_munlock(...) == 0`, and the contents that it leaves
  pub munlock : Region → Bytes → Bool × Bytes
  pub memzero : Bytes → Bytes
  -- on the size of the buffer, the text and the variant
  pub base642bin : ℕ → Bytes → Variant → Decoding
  pub malloc : Region → ℕ → Option Bytes
  -- `crypto_box_seal(c, m, mlen, pk) == 0`, and the contents of `c`
  pub crypto_box_seal : Bytes → Bytes → Bytes → Bool × Bytes
  -- the text of RFC 4648 for the bytes, with padding
  pub base64 : Bytes → Bytes
  -- `sodium_bin2base64(b64, maxlen, bin, ...)` on what the `maxlen` bytes at `b64` hold: what they hold
  -- behind the call, which then returns `b64`; or NULL
  pub bin2base64 : Bytes → Bytes → Option Bytes

-- The length of `n` bytes in base64 with padding and a NUL, without a bound.
abbrev pub base64_len : ℕ → ℕ
base64_len n = (n + 2) / 3 * 4 + 1

-- What the documentation promises of the calls.
pub record Documented (s : Sodium) : Type 0 where
  -- the static assertion of `salt_required_base64_output_len`
  pub seal_bytes_fit : salt_max_message_len + s.seal_bytes ≤ size_max
  -- the macro computes the length as long as that is a `size_t`
  pub encoded_len_exact : (n : ℕ) → base64_len n ≤ size_max → s.encoded_len n ≡ base64_len n
  pub memzero_wipes : (b : Bytes) → s.memzero b ≡ wiped (length b)
  pub munlock_wipes :
      (r : Region) (b : Bytes) → (s.munlock r b).0 ≡ true → (s.munlock r b).1 ≡ wiped (length b)
  pub munlock_length : (r : Region) (b : Bytes) → length (s.munlock r b).1 ≡ length b
  pub stored_fits :
      (size : ℕ) (text : Bytes) (v : Variant) → length (s.base642bin size text v).stored ≤ size
  pub bin_len_stored :
      (size : ℕ) (text : Bytes) (v : Variant)
      → (s.base642bin size text v).returned_zero ≡ true
      → (s.base642bin size text v).bin_len ≡ length (s.base642bin size text v).stored
  pub malloc_length : (r : Region) (n : ℕ) (b : Bytes) → s.malloc r n ≡ some b → length b ≡ n
  pub seal_length : (c m k : Bytes) → length (s.crypto_box_seal c m k).1 ≡ length c
  pub base64_text :
      (b : Bytes) → IsCstr (s.base64 b) × (length (s.base64 b) + 1 ≡ base64_len (length b))
  -- where the text and a NUL have room they are stored; what is behind them is not said
  pub bin2base64_stores :
      (b64 b stored : Bytes)
      → base64_len (length b) ≤ length b64
      → s.bin2base64 b64 b ≡ some stored
      → (back : Bytes) × (stored ≡ s.base64 b ++ 0 ∷ back) × (length stored ≡ length b64)
