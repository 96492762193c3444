-- ===== src/Input/Outcome.antt =====
-- src/cli/input.c, `cli_input_read_stream_limited`: all that a call can do.
pub mod Delivers
use salt.Base.{
  ℕ, ◌+◌, ◌-◌, ◌≤◌, ◌<◌, ◌≡◌, refl, ap, ◌∙◌, arith, ◌⊎◌, inl, inr, Bool, true, false, Option, none,
  some, [], ◌∷◌, ◌++◌, ◌==◌, Bytes, length, length-append, length-take, zero, suc, take, drop,
  store-append, append-nil, wiped, ltb, lt_or_le, Bool-cases, Option-cases, at_true, at_false,
  ◌>>=◌,
}
use salt.Input.{
  Source, Reader, Run, cli_secure_release_buffer, give_up, finish, probed, probe, receive,
  cli_input_read_stream_limited,
}
use salt.Seal.Box.{Block, unallocated, live, freed, overwrite, release_region}
use salt.Seal.Box.Outcome.{release_region-wiped, window-all, drop-all}
use salt.Seal.Key.Outcome.{length-overwrite}
use salt.Seal.Sodium.{stdin_buffer, Sodium, Documented, size_max}
use salt.Status.{Status, salt_ok, salt_err_input, salt_err_internal, salt_err_io, salt_err_signal}

-- What the documentation of the stream functions promises on a stream with the bytes `content` to come:
-- no more bytes are stored than asked for, and all of them unless the stream ends or fails; the next
-- byte is that of the stream, and EOF without an error is its end.
pub record Reads (source : Source) (max_len : ℕ) (content : Bytes) : Type 0 where
  pub stores_at_most : length source.read ≤ max_len
  pub reads_front : source.read_fails ≡ false → source.read ≡ take max_len content
  pub next_byte :
      (c : ℕ) → length source.read ≡ max_len → source.next ≡ some c → max_len < length content
  pub next_end :
      length source.read ≡ max_len
      → source.next ≡ none
      → source.probe_fails ≡ false
      → length content ≤ max_len

-- Why a read is refused, with the status.
pub data Reason (sodium : Sodium) (source : Source) (null : Bool) (max_len : ℕ) (content : Bytes)
    : Status → Type 0 where
  null_argument : null ≡ true → Reason sodium source null max_len content salt_err_input
  overflow : size_max - 1 < max_len → Reason sodium source null max_len content salt_err_internal
  interrupted :
      (source.interrupted_before ≡ true) ⊎ (source.interrupted_after ≡ true)
      → Reason sodium source null max_len content salt_err_signal
  no_memory :
      sodium.malloc stdin_buffer (max_len + 1) ≡ none
      → Reason sodium source null max_len content salt_err_internal
  failed :
      (source.read_fails ≡ true) ⊎ ((source.probe_fails ≡ true) ⊎ (source.ungetc_fails ≡ true))
      → Reason sodium source null max_len content salt_err_io
  too_long : max_len < length content → Reason sodium source null max_len content salt_err_input

-- No buffer is left: none was allocated, or it was wiped and freed.
abbrev pub Gone : ℕ → Block → Type 0
Gone max_len block = (block ≡ unallocated) ⊎ (block ≡ freed (wiped (max_len + 1)))

-- The outcomes of a read: all of the stream with a NUL, in a buffer with one byte more than the limit;
-- or a refusal that leaves no buffer and the caller's variables as they were.
pub data Outcome (sodium : Sodium) (source : Source) (null : Bool) (max_len : ℕ) (content : Bytes)
    (before : Reader) : Run → Type 0 where
  delivered :
      {after : Reader} (back : Bytes)
      → length content ≤ max_len
      → after.block ≡ live (content ++ 0 ∷ back)
      → length (content ++ 0 ∷ back) ≡ max_len + 1
      → after.delivered ≡ true
      → after.output_len ≡ length content
      → Outcome sodium source null max_len content before (some (salt_ok, after))
  refused :
      {status : Status} {after : Reader}
      → Reason sodium source null max_len content status
      → Gone max_len after.block
      → after.delivered ≡ before.delivered
      → after.output_len ≡ before.output_len
      → Outcome sodium source null max_len content before (some (status, after))

pub take_all : (n : ℕ) (xs : Bytes) → length xs ≤ n → take n xs ≡ xs
take_all zero [] h = refl
take_all zero (x ∷ xs) h = absurd (omega arith)
take_all (suc n) [] h = refl
take_all (suc n) (x ∷ xs) h = ap (λ t. x ∷ t) (take_all n xs (omega arith))

-- What is shorter than what was asked for is all there was.
short_take : (n : ℕ) (xs : Bytes) → length (take n xs) < n → length xs ≤ n
short_take n xs h = elim (lt_or_le n (length xs)) [
  | inl long ↦ absurd (omega (arith, length-take n xs (omega arith)))
  | inr fits ↦ fits
]

drop-cons : (n : ℕ) (xs : Bytes) → n < length xs → (x : ℕ) × (gap : Bytes) × (drop n xs ≡ x ∷ gap)
drop-cons n [] h = absurd (omega arith)
drop-cons zero (x ∷ xs) h = (x, xs, refl)
drop-cons (suc n) (x ∷ xs) h = drop-cons n xs (omega arith)

-- What `fread` stores leaves a byte of the buffer for the NUL.
overwrite-gap :
    (read buffer : Bytes)
    → length read < length buffer
    → (x : ℕ) × (gap : Bytes) × (overwrite read buffer ≡ some (read ++ x ∷ gap))
      × (length (read ++ x ∷ gap) ≡ length buffer)
overwrite-gap read buffer h =
    let (x, gap, e) = drop-cons (length read) buffer h in
    let fits : ltb (length buffer) (length read) ≡ false = ground arith in
    (
      x,
      gap,
      at_false (λ r. r ≡ some (read ++ x ∷ gap)) _ _ _ fits (rw e refl),
      rw e at (length-overwrite read buffer (omega arith)),
    )

module _ (sodium : Sodium) (d : Documented sodium) (source : Source) (null : Bool) (max_len : ℕ)
    (content : Bytes) (reads : Reads source max_len content) (before : Reader) where
  abbrev Ends : Run → Type 0
  Ends = Outcome sodium source null max_len content before

  cli_secure_release_buffer-wiped :
      (buffer : Bytes)
      → length buffer ≡ max_len + 1
      → cli_secure_release_buffer sodium buffer (max_len + 1) ≡ some (freed (wiped (max_len + 1)))
  unfolding cli_secure_release_buffer release_region
  cli_secure_release_buffer-wiped buffer l =
      rw (window-all (max_len + 1) buffer l, drop-all (max_len + 1) buffer l, ◌>>=◌)
        (ap (λ b. some (freed b))
          (append-nil _ ∙ (release_region-wiped sodium d stdin_buffer buffer true ∙ ap wiped l)))

  -- The buffer behind the read: what was read, and at least one byte more.
  module _ (gap : Bytes) (x : ℕ) (size : length (source.read ++ x ∷ gap) ≡ max_len + 1) (r : Reader)
      (same : r.delivered ≡ before.delivered) (same_len : r.output_len ≡ before.output_len) where
    stop :
        {status : Status} (message : Bytes)
        → Reason sodium source null max_len content status
        → Ends (give_up sodium max_len status message (source.read ++ x ∷ gap) r)
    stop message reason =
        rw (cli_secure_release_buffer-wiped (source.read ++ x ∷ gap) size, ◌>>=◌)
          (refused reason (inr refl) same same_len)

    finish-Outcome :
        source.read_fails ≡ false
        → length content ≤ max_len
        → Ends (finish sodium (length source.read) (source.read ++ x ∷ gap) r)
    finish-Outcome ok short =
        rw (store-append source.read x gap 0, ◌>>=◌)
          (let all : source.read ≡ content =
              reads.reads_front ok ∙ take_all max_len content short in
            delivered gap short (ap (λ b. live (b ++ 0 ∷ gap)) all)
              (rw all at (replaced source.read size)) refl (ap length all))
      where
        replaced :
            (b : Bytes) → length (b ++ x ∷ gap) ≡ max_len + 1 → length (b ++ 0 ∷ gap) ≡ max_len + 1
        replaced b l = omega (arith, length-append b (x ∷ gap), length-append b (0 ∷ gap), l)

    probed-Outcome :
        source.read_fails ≡ false
        → length source.read ≡ max_len
        → (next : Option ℕ) → source.next ≡ next
        → Ends (probed sodium source max_len (length source.read) (source.read ++ x ∷ gap) r next)
    probed-Outcome ok full (some c) e = elim (Bool-cases source.ungetc_fails) [
      | inl u ↦ at_true Ends _ _ _ u (stop _ (failed (inr (inr u))))
      | inr u ↦ at_false Ends _ _ _ u (stop _ (too_long (reads.next_byte c full e)))
    ]
    probed-Outcome ok full none e = elim (Bool-cases source.probe_fails) [
      | inl f ↦ at_true Ends _ _ _ f (stop _ (failed (inr (inl f))))
      | inr f ↦ at_false Ends _ _ _ f (finish-Outcome ok (reads.next_end full e f))
    ]

    probe-Outcome :
        source.read_fails ≡ false
        → Ends (probe sodium source max_len (length source.read) (source.read ++ x ∷ gap) r)
    unfolding probe
    probe-Outcome ok = elim (Bool-cases (length source.read == max_len)) [
      | inr less ↦
          let h = reads.stores_at_most in
          let l : length (take max_len content) < max_len =
            rw (reads.reads_front ok) at (below h less) in
          at_false Ends _ _ _ less (finish-Outcome ok (short_take max_len content l))
      | inl whole ↦ at_true Ends _ _ _ whole (
          let full : length source.read ≡ max_len = ground arith in
          probed-Outcome ok full source.next refl)
    ]
      where
        below : {n m : ℕ} → n ≤ m → (n == m) ≡ false → n < m
        below h e = ground arith

  receive-Outcome :
      (buffer : Bytes) (r : Reader)
      → length buffer ≡ max_len + 1
      → r.delivered ≡ before.delivered
      → r.output_len ≡ before.output_len
      → Ends (receive sodium source max_len buffer r)
  unfolding receive
  receive-Outcome buffer r size same same_len =
      let (x, gap, e, l) =
        overwrite-gap source.read buffer (omega (arith, reads.stores_at_most, size)) in
      rw (e, ◌>>=◌)
        (elim (Bool-cases source.interrupted_after) [
          | inl i ↦
              at_true Ends _ _ _ i (stop gap x (l ∙ size) r same same_len _ (interrupted (inr i)))
          | inr i ↦ at_false Ends _ _ _ i (elim (Bool-cases source.read_fails) [
            | inl f ↦
                at_true Ends _ _ _ f (stop gap x (l ∙ size) r same same_len _ (failed (inl f)))
            | inr ok ↦ at_false Ends _ _ _ ok (probe-Outcome gap x (l ∙ size) r same same_len ok)
          ])
        ])

  -- With a library and a stream that keep their documentation, and no block, a bounded read faults
  -- nowhere. Either it returns SALT_OK, the stream had at most `max_len` bytes, and `*output` is a buffer
  -- of `max_len + 1` bytes that starts with all of them and a NUL, and `*output_len` is their number; or it
  -- returns an error status for a reason that holds, the caller's variables are as before, and no buffer
  -- is left: none was allocated, or it was wiped in full and freed.
  pub cli_input_read_stream_limited-Outcome :
      before.block ≡ unallocated
      → Ends (cli_input_read_stream_limited sodium source null max_len before)
  unfolding cli_input_read_stream_limited
  cli_input_read_stream_limited-Outcome none_yet = elim (Bool-cases null) [
    | inl n ↦ at_true Ends _ _ _ n (refused (null_argument n) (inl none_yet) refl refl)
    | inr n ↦ at_false Ends _ _ _ n (elim (Bool-cases (ltb (size_max - 1) max_len)) [
      | inl o ↦ at_true Ends _ _ _ o (refused (overflow (ground arith)) (inl none_yet) refl refl)
      | inr o ↦ at_false Ends _ _ _ o (elim (Bool-cases source.interrupted_before) [
        | inl i ↦ at_true Ends _ _ _ i (refused (interrupted (inl i)) (inl none_yet) refl refl)
        | inr i ↦
            at_false Ends _ _ _ i (elim (Option-cases (sodium.malloc stdin_buffer (max_len + 1))) [
              | inl e ↦ rw e (refused (no_memory e) (inl none_yet) refl refl)
              | inr (buffer, e) ↦ rw e (
                  receive-Outcome buffer (record before { block = live buffer })
                    (d.malloc_length stdin_buffer (max_len + 1) buffer e) refl refl)
            ])
      ])
    ])
  ]
