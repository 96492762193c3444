-- ===== src/Parse/Whitespace/Trim.antt =====
-- src/cli/parse.c, `salt_cli_trim_whitespace_inplace`: the in-place loops against a description
-- of trimming on the string alone.
use mathlib.Core.Path.{subst}
use salt.Base.{
  ℕ, zero, suc, ◌+◌, ◌-◌, ◌<◌, ◌≡◌, refl, sym, ap, ◌∙◌, Option, some, [], ◌∷◌, ◌++◌, append_assoc,
  append-nil, arith, ltb, if◌then◌else◌, Bool-cases, Bytes, length, length-append, get_elem?, store,
  store-append, IsCstr, inl, inr,
}
use salt.Parse.Whitespace.{
  cli_is_ascii_ws, skip_ws, memchr_nul, scan_start, shift_down, scan_end, terminate,
  salt_cli_trim_whitespace_inplace, ◌>>=◌,
}

-- The string without its trailing whitespace.
unfoldable pub strip_end : Bytes → Bytes
strip_end [] = []
strip_end (c ∷ cs) = elim (strip_end cs) [
  | [] ↦ if cli_is_ascii_ws c then [] else c ∷ []
  | d ∷ ds ↦ c ∷ d ∷ ds
]

-- The string without the whitespace at both ends.
unfoldable pub trim : Bytes → Bytes
trim s = strip_end (skip_ws s)

-- How many whitespace bytes stand in front.
lead : Bytes → ℕ
lead [] = 0
lead (c ∷ cs) = if cli_is_ascii_ws c then suc (lead cs) else 0

get_elem?-append : (p : Bytes) (c : ℕ) (r : Bytes) → get_elem? (p ++ c ∷ r) (length p) ≡ some c
get_elem?-append [] c r = refl
get_elem?-append (x ∷ p) c r = get_elem?-append p c r

memchr_nul-append :
    (s t : Bytes) (n : ℕ) → IsCstr s → length s < n → memchr_nul (s ++ 0 ∷ t) n ≡ some (length s)
unfolding memchr_nul
memchr_nul-append [] t zero h lt = absurd (omega arith)
memchr_nul-append [] t (suc n) h lt = refl
memchr_nul-append (c ∷ cs) t zero h lt = absurd (omega arith)
memchr_nul-append (c ∷ cs) t (suc n) h lt = ground (arith, memchr_nul-append cs t n h.1)

lead_split : (s : Bytes) → (w : Bytes) × (s ≡ w ++ skip_ws s) × (length w ≡ lead s)
unfolding lead skip_ws
lead_split [] = ([], refl, refl)
lead_split (c ∷ cs) = elim (Bool-cases (cli_is_ascii_ws c)) [
  | inl ws ↦ let (w, e, l) = lead_split cs in (c ∷ w, rw ws (ap (λ t. c ∷ t) e), rw ws (ap suc l))
  | inr solid ↦ ([], rw solid, rw solid)
]

-- The hypothesis of the induction, with the byte just read moved back behind the prefix.
scan_start-next :
    (s p : Bytes) (c : ℕ) (r : Bytes)
    → scan_start (length s) ((p ++ c ∷ []) ++ (s ++ r)) (length (p ++ c ∷ []))
      ≡ some (length (p ++ c ∷ []) + lead s)
    → scan_start (length s) (p ++ c ∷ (s ++ r)) (length p + 1) ≡ some (length p + 1 + lead s)
scan_start-next s p c r h = rw (append_assoc, length-append) at h

scan_start-lead :
    (s p r : Bytes) → scan_start (length s) (p ++ (s ++ r)) (length p) ≡ some (length p + lead s)
unfolding scan_start lead
scan_start-lead [] p r = ap some (omega arith)
scan_start-lead (c ∷ s) p r = ground (
  arith,
  get_elem?-append p c (s ++ r),
  scan_start-next s p c r (scan_start-lead s (p ++ c ∷ []) r),
)

read_past :
    (done gap : Bytes) (c : ℕ) (r : Bytes)
    → get_elem? (done ++ (gap ++ c ∷ r)) (length gap + length done) ≡ some c
read_past done gap c r =
    let n : length gap + length done ≡ length (done ++ gap) =
      omega (arith, length-append done gap) in
    rw (n, ← append_assoc done gap (c ∷ r)) (get_elem?-append (done ++ gap) c r)

shift_down-next :
    (m done gs : Bytes) (c : ℕ) (r : Bytes) {out : Option Bytes}
    → shift_down
        (length m)
        (length (gs ++ c ∷ []))
        (length (done ++ c ∷ []))
        ((done ++ c ∷ []) ++ ((gs ++ c ∷ []) ++ (m ++ r)))
      ≡ out
    → shift_down (length m) (suc (length gs)) (length done + 1) (done ++ c ∷ (gs ++ c ∷ (m ++ r)))
      ≡ out
shift_down-next m done gs c r h =
    let gap : suc (length gs) ≡ length (gs ++ c ∷ []) = omega (arith, length-append gs (c ∷ [])) in
    let copied : length done + 1 ≡ length (done ++ c ∷ []) =
      omega (arith, length-append done (c ∷ [])) in
    let layout : done ++ c ∷ (gs ++ c ∷ (m ++ r))
        ≡ (done ++ c ∷ []) ++ ((gs ++ c ∷ []) ++ (m ++ r)) =
      simp append_assoc in
    rw (gap, copied, layout) h

-- The array is what was copied, a gap of `start` bytes, what is to be copied, and the rest.
shift_down-append :
    (m done gap r : Bytes)
    → 0 < length gap
    → (j : Bytes) × (shift_down (length m) (length gap) (length done) (done ++ (gap ++ (m ++ r)))
        ≡ some (done ++ (m ++ (j ++ r))))
      × (length j ≡ length gap)
unfolding shift_down
shift_down-append [] done gap r h = (gap, refl, refl)
shift_down-append (c ∷ m) done [] r h = absurd (omega arith)
shift_down-append (c ∷ m) done (g ∷ gs) r h =
    let (j, moved, same) =
      shift_down-append m (done ++ c ∷ []) (gs ++ c ∷ []) r
        (omega (arith, length-append gs (c ∷ []))) in
    (
      j,
      rw (read_past done (g ∷ gs) c (m ++ r), store-append done g (gs ++ c ∷ (m ++ r)) c)
          (shift_down-next m done gs c r moved ∙ ap some (append_assoc done (c ∷ []) _)),
      omega (arith, same, length-append gs (c ∷ [])),
    )

strip_end-concat :
    (xs : Bytes) (c : ℕ)
    → strip_end (xs ++ c ∷ []) ≡ (if cli_is_ascii_ws c then strip_end xs else xs ++ c ∷ [])
unfolding strip_end
strip_end-concat [] c = refl
strip_end-concat (x ∷ []) c = ground arith
strip_end-concat (x ∷ y ∷ xs) c = ground (arith, strip_end-concat (y ∷ xs) c)

strip_end_split_cons :
    (c : ℕ) (cs t w : Bytes)
    → strip_end cs ≡ t
    → cs ≡ t ++ w
    → (w' : Bytes) × (c ∷ cs ≡ strip_end (c ∷ cs) ++ w')
unfolding strip_end
strip_end_split_cons c cs (d ∷ ds) w h e = (w, ground arith)
strip_end_split_cons c cs [] w h e = elim (Bool-cases (cli_is_ascii_ws c)) [
  | inl ws ↦ (c ∷ cs, rw (h, ws))
  | inr solid ↦ (cs, rw (h, solid))
]

strip_end_split : (s : Bytes) → (w : Bytes) × (s ≡ strip_end s ++ w)
unfolding strip_end
strip_end_split [] = ([], refl)
strip_end_split (c ∷ cs) =
    let (w, e) = strip_end_split cs in strip_end_split_cons c cs (strip_end cs) w refl e

last_split : (c : ℕ) (cs : Bytes) → (ys : Bytes) × (y : ℕ) × (c ∷ cs ≡ ys ++ y ∷ [])
last_split c [] = ([], c, refl)
last_split c (d ∷ cs) = let (ys, y, e) = last_split d cs in (c ∷ ys, y, ap (λ t. c ∷ t) e)

scan_end-concat :
    (n : ℕ) (ys : Bytes) (y : ℕ) (r : Bytes)
    → length ys ≡ n
    → scan_end (ys ++ y ∷ r) n ≡ some (length (strip_end ys))
    → scan_end (ys ++ y ∷ r) (suc n) ≡ some (length (strip_end (ys ++ y ∷ [])))
unfolding scan_end
scan_end-concat n ys y r h ih =
    let read : get_elem? (ys ++ y ∷ r) n ≡ some y = rw (← h) (get_elem?-append ys y r) in
    ground (arith, read, strip_end-concat ys y, length-append ys (y ∷ []))

-- Reading backwards from the end of the string stops behind its stripped part.
scan_end-strip_end :
    (n : ℕ) (u r : Bytes) → length u ≡ n → scan_end (u ++ r) n ≡ some (length (strip_end u))
unfolding scan_end strip_end
scan_end-strip_end zero [] r h = refl
scan_end-strip_end zero (c ∷ u) r h = absurd (omega arith)
scan_end-strip_end (suc n) [] r h = absurd (omega arith)
scan_end-strip_end (suc n) (c ∷ u) r h =
    let (ys, y, e) = last_split c u in
    let short : length ys ≡ n =
      omega (arith, ap (λ (t : Bytes). length t) e, length-append ys (y ∷ [])) in
    let whole : ys ++ y ∷ r ≡ (ys ++ y ∷ []) ++ r = sym (append_assoc ys (y ∷ []) r) in
    let read = scan_end-concat n ys y r short (scan_end-strip_end n ys (y ∷ r) short) in
    subst (λ (t : Bytes). scan_end (t ++ r) (suc n) ≡ some (length (strip_end t))) (sym e)
      (subst (λ (t : Bytes). scan_end t (suc n) ≡ some (length (strip_end (ys ++ y ∷ [])))) whole
        read)

-- The end of the loop is where the new terminator goes.
close_string :
    (u rest : Bytes)
    → (j : Bytes) × (store (u ++ 0 ∷ rest) (length (strip_end u)) 0
        ≡ some (strip_end u ++ 0 ∷ (j ++ rest)))
      × (length (strip_end u ++ j) ≡ length u)
close_string u rest = close_at u (strip_end u) (strip_end_split u).0 (strip_end_split u).1
  where
    close_at :
        (u v w : Bytes)
        → u ≡ v ++ w
        → (j : Bytes) × (store (u ++ 0 ∷ rest) (length v) 0 ≡ some (v ++ 0 ∷ (j ++ rest)))
          × (length (v ++ j) ≡ length u)
    close_at u v [] e = ([], rw (e, append-nil) (store-append v 0 rest 0), rw e)
    close_at u v (x ∷ w) e = (
      w ++ 0 ∷ [],
      rw (e, append_assoc, append_assoc) (store-append v x (w ++ 0 ∷ rest) 0),
      omega (
        arith,
        ap (λ (t : Bytes). length t) e,
        length-append v (x ∷ w),
        length-append v (w ++ 0 ∷ []),
        length-append w (0 ∷ []),
      ),
    )

-- The copy moves the string without its leading whitespace to the front of the array.
move_front :
    (s t w u : Bytes)
    → s ≡ w ++ u
    → (j : Bytes) × ((if ltb 0 (length w)
          then shift_down (length s - length w + 1) (length w) 0 (s ++ 0 ∷ t)
          else some (s ++ 0 ∷ t))
        ≡ some (u ++ 0 ∷ (j ++ t)))
      × (length j ≡ length w)
move_front s t [] u e = ([], rw e, refl)
move_front s t (x ∷ w) u e =
    let (j, moved, same) = shift_down-append (u ++ 0 ∷ []) [] (x ∷ w) t (omega arith) in
    let rounds : length s - suc (length w) + 1 ≡ length (u ++ 0 ∷ []) =
      omega (
        arith,
        ap (λ (t : Bytes). length t) e,
        length-append (x ∷ w) u,
        length-append u (0 ∷ []),
      ) in
    let copied : shift_down (length (u ++ 0 ∷ [])) (suc (length w)) 0 (x ∷ (w ++ (u ++ 0 ∷ t)))
        ≡ some (u ++ 0 ∷ (j ++ t)) =
      simp append_assoc at moved in
    (j, rw (rounds, e, append_assoc) (ground (arith, copied)), same)

run_steps :
    (value : Bytes) (size : ℕ) {len start end : ℕ} {moved out : Bytes}
    → 0 < size
    → memchr_nul value size ≡ some len
    → scan_start len value 0 ≡ some start
    → (if ltb 0 start then shift_down (len - start + 1) start 0 value else some value) ≡ some moved
    → scan_end moved (len - start) ≡ some end
    → store moved end 0 ≡ some out
    → salt_cli_trim_whitespace_inplace value size ≡ some out
unfolding salt_cli_trim_whitespace_inplace terminate
run_steps value zero pos m a b c d = elim pos [ ]
run_steps value (suc n) pos m a b c d =
    rw (m, ◌>>=◌) (rw (a, ◌>>=◌) (rw (b, ◌>>=◌) (rw (c, ◌>>=◌) (ground (arith, d)))))

-- On an array that holds the string `s`, the bytes behind its terminator and those past `size`,
-- trimming in place stores `trim s` with its terminator, faults nowhere, and leaves the array's
-- length and the bytes behind the old terminator as they were.
pub salt_cli_trim_whitespace_inplace-trim :
    (s t : Bytes) (size : ℕ)
    → IsCstr s
    → length s < size
    → (j : Bytes) × (salt_cli_trim_whitespace_inplace (s ++ 0 ∷ t) size
        ≡ some (trim s ++ 0 ∷ (j ++ t)))
      × (length (trim s ++ j) ≡ length s)
unfolding salt_cli_trim_whitespace_inplace trim
salt_cli_trim_whitespace_inplace-trim s t size h lt =
    let (w, split, front) = lead_split s in
    let u = skip_ws s in
    let (j, moved, gap) = move_front s t w u split in
    let (k, closed, rest) = close_string u (j ++ t) in
    let total : length s ≡ length w + length u =
      omega (arith, ap (λ (x : Bytes). length x) split, length-append w u) in
    (
      k ++ j,
      rw (append_assoc k j t) (
          run_steps (s ++ 0 ∷ t) size (omega arith) (memchr_nul-append s t size h lt)
            (scan_start-lead s [] (0 ∷ t) ∙ ap some (omega (arith, front))) moved
            (scan_end-strip_end (length s - length w) u (0 ∷ (j ++ t)) (omega arith)) closed),
      rw (← append_assoc) (omega (arith, length-append (strip_end u ++ k) j)),
    )

pub IsCstr-skip_ws : (s : Bytes) → IsCstr s → IsCstr (skip_ws s)
unfolding skip_ws
IsCstr-skip_ws [] h = tt
IsCstr-skip_ws (c ∷ cs) h = ground (arith, IsCstr-skip_ws cs h.1)

IsCstr-strip_end : (s : Bytes) → IsCstr s → IsCstr (strip_end s)
unfolding strip_end
IsCstr-strip_end [] h = tt
IsCstr-strip_end (c ∷ cs) h = ground (arith, IsCstr-strip_end cs h.1)

-- Trimming puts no NUL into a string.
pub IsCstr-trim : (s : Bytes) → IsCstr s → IsCstr (trim s)
unfolding trim
IsCstr-trim s h = IsCstr-strip_end (skip_ws s) (IsCstr-skip_ws s h)
