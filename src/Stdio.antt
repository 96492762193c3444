-- ===== src/Stdio.antt =====
-- The C library's output streams, as far as src/cli/output.c and src/cli/stream.c use them. The
-- environment decides which operation fails: a stream carries the outcomes of the operations to
-- come, and every operation past their end succeeds.
use salt.Base.{ℕ, Bool, true, false, List, [], ◌∷◌, ◌++◌, Bytes, take}

pub data Attempt : Type 0 where
  succeeds : Attempt
  fails_after : ℕ → Attempt

pub record Stream : Type 0 where
  pub written : Bytes
  pub plan : List Attempt
  pub failed : Bool

abbrev pub attempt : Bytes → Stream → List Attempt → Bool × Stream
attempt bytes s [] = (true, record s { written = s.written ++ bytes; plan = [] })
attempt bytes s (succeeds ∷ rest) = (true, record s { written = s.written ++ bytes; plan = rest })
attempt bytes s (fails_after n ∷ rest) =
    (false, record { written = s.written ++ take n bytes; plan = rest; failed = true })

-- `fputc`, `fputs` and `vfprintf`: whether all of the bytes were taken. A failure takes some of them
-- and sets the error indicator.
unfoldable pub write : Bytes → Stream → Bool × Stream
write bytes s = attempt bytes s s.plan

-- `fflush(stream) == 0`
unfoldable pub fflush : Stream → Bool × Stream
fflush s = attempt [] s s.plan
