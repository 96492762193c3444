-- ===== src/Output/Writer.antt =====
-- src/cli/output.c: the `cli_stream_…` helpers. A writer runs on the stream and the error buffer. All
-- of the calls in that file pass the message "failed to write encrypted output".
pub mod Emits
use salt.Base.{Bool, true, false, not, ◌&&◌, List, [], ◌∷◌, if◌then◌else◌, Bytes}
use salt.Stdio.{Stream, write, fflush}
use salt.Status.{Status, salt_ok, salt_err_io, is_ok, ErrorBuffer, set_error, codes}

pub record Sink : Type 0 where
  pub stream : Stream
  pub error : ErrorBuffer

abbrev pub Writer : Type 0
Writer = Sink → Status × Sink

unfoldable pub write_failed : Bytes
write_failed = codes "failed to write encrypted output"

unfoldable pub cli_stream_write_error : Writer
cli_stream_write_error s = (salt_err_io, record s { error = set_error write_failed s.error })

-- `cli_stream_putc`, `cli_stream_puts` and `cli_stream_printf`, which differ in how the bytes are
-- given.
unfoldable pub cli_stream_put : Bytes → Writer
cli_stream_put bytes s =
    let (taken, stream) = write bytes s.stream in
    if taken
    then (salt_ok, record s { stream = stream })
    else cli_stream_write_error (record s { stream = stream })

unfoldable pub cli_stream_flush : Writer
cli_stream_flush s =
    let (flushed, stream) = fflush s.stream in
    if flushed && not stream.failed
    then (salt_ok, record s { stream = stream })
    else cli_stream_write_error (record s { stream = stream })

-- `if (f(…) != SALT_OK) return SALT_ERR_IO;` and what follows; `||` between such tests.
infixl 5 ◌and_then◌
abbrev pub ◌and_then◌ : Writer → Writer → Writer
◌and_then◌ m next s = let r = m s in if is_ok r.0 then next r.1 else (salt_err_io, r.1)
