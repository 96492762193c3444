-- ===== src/Lib.antt =====
-- Verification library of salt, the Sodium Asymmetric/Anonymous Locking Tool: a C program that seals a
-- plaintext for a public key with libsodium and prints the result as base64 or JSON.
--
-- The parts and the files that model them:
--   Status.antt            include/salt.h: status codes, limits, and the error buffer
--   Parse.antt, Parse/     src/cli/parse.c: whitespace (Parse/Whitespace), JSON string tokens
--                          (Parse/Token), the strict key object (Parse/KeyObject) and the key input
--                          (Parse/KeyInput)
--   Output.antt, Output/   src/cli/output.c: UTF-8 validation (Output/Utf8), JSON strings
--                          (Output/Json), the stream helpers (Output/Writer) and
--                          salt_cli_emit_output (Output/Emit)
--   Seal.antt, Seal/       src/salt.c: sizes (Seal/Length), the public key (Seal/Key), the sealing with
--                          its cleanup (Seal/Box) and the zeroing of the plaintext (Seal/Zeroing),
--                          over libsodium and the allocator as an interface (Seal/Sodium)
--   Input.antt, Input/     src/cli/input.c: the bounded read of a stream, and the loaders of the key and
--                          of the plaintext (Input/Load): what they keep (Input/Load/Keeps) and what
--                          they load (Input/Load/Result)
--   Prepare.antt, Prepare/ src/cli/prepare.c: the sealing of what was loaded
--   Main.antt, Main/       src/main.c: the usage, the version, and the run over all the other parts: what
--                          it leaves (Main/Clean) and what it did (Main/Result, Main/Served)
--   Args.antt, Args/       src/cli/args.c: the options (Args/Options has what they mean, Args/Handled
--                          and Args/Loop how they are read) and what is checked behind them
--                          (Args/Contract, Args/Outcome)
--   Diagnostics.antt       src/cli/stream.c: messages on a stream
--   Signals.antt, Signals/ src/cli/signal.c: installation and restoration of the handlers, the flag,
--                          and the process as a step relation (Signals/Steps)
--   State.antt, State/     src/cli/state.h and src/cli/state.c: the state of a run, its initialization
--                          and its cleanup, and the key id that it uses
--   Hooks.antt             src/cli/test_hooks.c: the hooks of the tests and their reset
--   Stdio.antt             the C library's output streams, with an environment that fails operations
--   Base.antt, Base/       shared names and lemmas
--   Tests.antt, Tests/     runs of the code and instances of the theorems
--
-- Representation. A C string that is read through a cursor is the list of its bytes in front of the
-- NUL, so a cursor at the NUL is the empty list. An array that is written is the list of all of its
-- bytes, with the size that the caller gives as a number of its own; a read or write out of range is a
-- fault, `none`. A pointer that may be NULL is an option; an array that the parsers and the error
-- buffers treat alike at NULL and at size 0 has size 0. A function returns its status together with the
-- state that it leaves.
--
-- A run. Main.antt threads the state of a run, the output streams and the variables of
-- src/cli/signal.c through the parts in the order of salt_cli_run_with_streams_internal, from the
-- initialization to the cleanup; the state also keeps the bytes of every block at the moment at which it
-- was freed. What a run meets is the record Main.Environment.
--
-- What is not modelled: the parts of src/cli/test_hooks.c that only pass a call on, the tests, the fuzz
-- targets, the benchmarks and the scripts, which drive the program from outside, and the locks in memory,
-- whose results the code ignores. libsodium, the allocator, getopt_long, sigaction and the streams are
-- parameters, with their documentation as named hypotheses; so are the macro SALT_VERSION and the value of
-- the flag of the signal handler where the code polls it. getopt_long gives its results, the vector as it
-- has permuted it, and optind in that vector; how it permutes is its own. What sodium_bin2base64 leaves of
-- the buffer behind the NUL of its text is not assumed.
--
-- Fuel. The loop over the members of a key object runs on fuel, one more than the bytes behind the
-- opening brace, and each round consumes some; the validator of UTF-8 has a round for each byte.
pub mod Args
pub mod Base
pub mod Hooks
pub mod Input
pub mod Main
pub mod Output
pub mod Seal
pub mod Signals
pub mod State
pub mod Parse
pub mod Prepare
pub mod Status
pub mod Diagnostics
pub mod Stdio
mod Tests
