-- ===== src/Tests/Seal.antt =====
-- src/salt.c at concrete inputs, with a library that keys and seals in a few bytes.
use salt.Base.{
  Gives, ℕ, zero, suc, ◌+◌, ◌-◌, ◌≤◌, ◌≡◌, refl, arith, ltb, if◌then◌else◌, true, false, some, [],
  ◌∷◌, ◌++◌, Bytes, length, take, wiped, length-wiped, length-append, sym, IsCstr,
}
use salt.Seal.Box.{
  unallocated, freed, Input, Frame, salt_seal_base64_keylen, salt_seal_base64,
  salt_validate_seal_inputs, salt_secure_release, encode,
}
use salt.Seal.Key.{decode_public_key, try_variants}
use salt.Seal.Key.Outcome.{KeyOutcome, padded, decode_public_key-Outcome}
use salt.Seal.Box.Contract.{Given, Outcome}
use salt.Seal.Box.Succeeds.{Enough, Seals, salt_seal_base64_keylen-Seals}
use salt.Seal.Box.Outcome.{salt_seal_base64_keylen-Outcome}
use salt.Seal.Length.{salt_required_base64_output_len, salt_validate_output_capacity}
use salt.Seal.Length.Exact.{salt_required_base64_output_len-exact}
use salt.Seal.Sodium.{Sodium, Documented, base64_len, size_max}
use salt.Seal.Zeroing.{
  salt_seal_base64_with_plaintext_zeroing, salt_seal_base64_with_plaintext_zeroing_keylen,
}
use salt.Seal.Zeroing.Cstring.{with_strlen, salt_seal_base64-keylen}
use salt.Seal.Zeroing.Outcome.{Zeroed, salt_seal_base64_with_plaintext_zeroing_keylen-Zeroed}
use salt.Status.{Status, salt_ok, codes, ErrorBuffer}

abbrev filled : ℕ → Bytes
filled zero = []
filled (suc n) = b'A' ∷ filled n

length-filled : (n : ℕ) → length (filled n) ≡ n
length-filled zero = refl
length-filled (suc n) = omega (arith, length-filled n)

filled-IsCstr : (n : ℕ) → IsCstr (filled n)
filled-IsCstr zero = tt
filled-IsCstr (suc n) = (omega arith, filled-IsCstr n)

take_fits : (n : ℕ) (xs : Bytes) → length (take n xs) ≤ n
take_fits zero xs = omega arith
take_fits (suc n) [] = omega arith
take_fits (suc n) (x ∷ xs) = omega (arith, take_fits n xs)

filled_size : (n : ℕ) → length (filled (base64_len n - 1)) + 1 ≡ base64_len n
filled_size n = rw (length-filled (base64_len n - 1)) (omega arith)

-- Keys of three bytes, and boxes with two bytes more than their message.
abbrev pub small : Sodium
small = record {
  public_key_bytes = 3;
  seal_bytes = 2;
  encoded_len = base64_len;
  init_fails = false;
  mlock = λ r. true;
  munlock = λ r b. (true, wiped (length b));
  memzero = λ b. wiped (length b);
  base642bin = λ size text v. record {
    returned_zero = true;
    stored = take size text;
    bin_len = length (take size text);
    end = some (length text);
  };
  malloc = λ r n. some (wiped n);
  crypto_box_seal = λ c m k. (true, filled (length c));
  base64 = λ b. filled (base64_len (length b) - 1);
  bin2base64 = λ old b.
      let text = filled (base64_len (length b) - 1) in
      some (text ++ wiped (length old - length text));
}

pub small-Documented : Documented small
small-Documented = record {
  seal_bytes_fit = omega arith;
  encoded_len_exact = λ n h. refl;
  memzero_wipes = λ b. refl;
  munlock_wipes = λ r b h. refl;
  munlock_length = λ r b. length-wiped (length b);
  stored_fits = λ size text v. take_fits size text;
  bin_len_stored = λ size text v h. refl;
  malloc_length = λ r n b h. let e : wiped n ≡ b = cc h in rw e at (length-wiped n);
  seal_length = λ c m k. length-filled (length c);
  base64_text = λ b. (filled-IsCstr (base64_len (length b) - 1), filled_size (length b));
  bin2base64_stores = λ old b stored room e.
      let n = length old - base64_len (length b) in
      let text = filled (base64_len (length b) - 1) in
      let size = filled_size (length b) in
      let split : length old - length text ≡ suc n = omega (arith, size, room) in
      let stores : text ++ wiped (length old - length text) ≡ stored = cc e in
      let holds : stored ≡ text ++ wiped (length old - length text) = sym stores in
      (
        wiped n,
        rw split at holds,
        rw
            (
              holds,
              length-append text (wiped (length old - length text)),
              length-wiped (length old - length text),
            )
            (omega (arith, size, room)),
      );
}

abbrev no_error : ErrorBuffer
no_error = record { size = 64; text = [] }

-- A secret of two bytes in an array of three, and room for nine characters.
abbrev secret : Input
secret = record {
  message = some (7 ∷ 8 ∷ 9 ∷ []);
  message_len = 2;
  public_key_b64 = some (codes "abc" ++ 0 ∷ []);
  public_key_b64_len = 3;
  output_size = 9;
}

abbrev start : Frame
start = record {
  output = some (wiped 10);
  output_written = some 77;
  error = no_error;
  public_key = 5 ∷ 5 ∷ 5 ∷ [];
  public_key_locked = false;
  ciphertext = unallocated;
  ciphertext_locked = false;
  stack_wiped = 0;
}

start-Given : Given small secret start
start-Given = record {
  message_holds = omega arith;
  key_holds = omega arith;
  output_holds = omega arith;
  output_size_fits = omega arith;
  scratch_size = refl;
  no_block = refl;
}

salt_required_base64_output_len-exact_example :
    salt_required_base64_output_len small 48
    ≡ (if ltb (base64_len 50) size_max then base64_len 50 else size_max)
salt_required_base64_output_len-exact_example =
    salt_required_base64_output_len-exact small small-Documented 48 (omega arith)

salt_seal_base64_keylen-Outcome_example :
    Outcome small secret start (salt_seal_base64_keylen small secret start)
salt_seal_base64_keylen-Outcome_example =
    salt_seal_base64_keylen-Outcome small small-Documented secret start start-Given

salt_seal_base64_with_plaintext_zeroing_keylen-Zeroed_example :
    Zeroed small secret start (salt_seal_base64_with_plaintext_zeroing_keylen small secret start)
salt_seal_base64_with_plaintext_zeroing_keylen-Zeroed_example =
    salt_seal_base64_with_plaintext_zeroing_keylen-Zeroed small small-Documented secret start
      start-Given

decode_public_key-Outcome_example :
    (r : Status × Bytes) × (decode_public_key small (some (codes "abc")) 3 (9 ∷ 9 ∷ 9 ∷ [])
      ≡ some r)
    × (KeyOutcome small (take 3 (codes "abc")) (9 ∷ 9 ∷ 9 ∷ []) r)
decode_public_key-Outcome_example =
    decode_public_key-Outcome small small-Documented (codes "abc") (9 ∷ 9 ∷ 9 ∷ []) 3 (omega arith)
      refl

abc-IsCstr : IsCstr (codes "abc")
abc-IsCstr = (omega arith, (omega arith, (omega arith, tt)))

salt_seal_base64-keylen_example :
    (salt_seal_base64 small secret start
      ≡ salt_seal_base64_keylen small
          (with_strlen small secret start (codes "abc") [] abc-IsCstr refl)
          start)
    × (salt_seal_base64_with_plaintext_zeroing small secret start
        ≡ salt_seal_base64_with_plaintext_zeroing_keylen small
            (with_strlen small secret start (codes "abc") [] abc-IsCstr refl)
            start)
salt_seal_base64-keylen_example =
    salt_seal_base64-keylen small secret start (codes "abc") [] abc-IsCstr refl

-- The result of a call that is looked at: the status, the output, the counter and the two buffers.
seal_runs :
    salt_seal_base64_keylen small secret start
    ≡ some (
      salt_ok,
      record {
        output = some (filled 8 ++ wiped 2);
        output_written = some 8;
        error = no_error;
        public_key = wiped 3;
        public_key_locked = true;
        ciphertext = freed (wiped 4);
        ciphertext_locked = true;
        stack_wiped = 4096;
      },
    )
unfolding salt_seal_base64_keylen encode decode_public_key salt_validate_seal_inputs
    salt_validate_output_capacity salt_required_base64_output_len salt_secure_release try_variants
seal_runs = refl

start-Enough : Enough small secret start
start-Enough = record {
  message = 7 ∷ 8 ∷ 9 ∷ [];
  message_at = refl;
  message_min = omega arith;
  message_max = omega arith;
  key_array = codes "abc" ++ 0 ∷ [];
  key_at = refl;
  key_min = omega arith;
  key_max = omega arith;
  key = codes "abc";
  decodes =
      padded (record { returns_zero = refl; key_bytes = refl; whole_text = refl; stores = refl });
  output_array = wiped 10;
  output_at = refl;
  capacity = omega arith;
  starts = refl;
  block = wiped 4;
  allocates = refl;
  seals = λ c m k. refl;
  encodes = λ b64 box. (_, refl);
}

salt_seal_base64_keylen-Seals_example :
    Gives (Seals small secret start start-Enough) (salt_seal_base64_keylen small secret start)
salt_seal_base64_keylen-Seals_example =
    salt_seal_base64_keylen-Seals small secret start start-Enough small-Documented start-Given
