-- ===== src/Tests/Input.antt =====
-- src/cli/input.c at concrete inputs.
use salt.Base.{Gives, wiped, ◌≡◌, refl, arith, true, false, none, some, [], ◌∷◌, ◌++◌, wiped}
use salt.Input.{Source, Reader, cli_input_read_stream_limited}
use salt.Input.Outcome.Delivers.{Readable, Delivers, cli_input_read_stream_limited-Delivers}
use salt.Input.Outcome.{Reads, Outcome, cli_input_read_stream_limited-Outcome}
use salt.Seal.Box.{unallocated, live, freed}
use salt.Status.{salt_ok, salt_err_input, codes, set_error}
use salt.Tests.Seal.{small, small-Documented}

-- A stream with four bytes to come.
abbrev four : Source
four = record {
  read = codes "four";
  read_fails = false;
  next = none;
  probe_fails = false;
  ungetc_fails = false;
  interrupted_before = false;
  interrupted_after = false;
}

abbrev fresh : Reader
fresh = record {
  block = unallocated;
  delivered = false;
  output_len = 77;
  error = record { size = 64; text = [] };
}

four-Reads : Reads four 4 (codes "four")
four-Reads = record {
  stores_at_most = omega arith;
  reads_front = λ e. refl;
  next_byte = λ c h e. absurd (cc e);
  next_end = λ h e p. omega arith;
}

cli_input_read_stream_limited-Outcome_example :
    Outcome small four false 4
      (codes "four")
      fresh
      (cli_input_read_stream_limited small four false 4 fresh)
cli_input_read_stream_limited-Outcome_example =
    cli_input_read_stream_limited-Outcome small small-Documented four false 4 (codes "four")
      four-Reads fresh refl

read_runs :
    cli_input_read_stream_limited small four false 4 fresh
    ≡ some (
      salt_ok,
      record {
        block = live (codes "four" ++ 0 ∷ []);
        delivered = true;
        output_len = 4;
        error = fresh.error;
      },
    )
unfolding cli_input_read_stream_limited
read_runs = refl

-- One byte more than the limit.
too_long_runs :
    cli_input_read_stream_limited small (record four { next = some 33 }) false 4 fresh
    ≡ some (
      salt_err_input,
      record {
        block = freed (wiped 5);
        delivered = false;
        output_len = 77;
        error = set_error (codes "stdin input exceeds maximum length") fresh.error;
      },
    )
unfolding cli_input_read_stream_limited
too_long_runs = refl

four-Readable : Readable small four 4
four-Readable = record {
  reads_well = refl;
  probes_well = refl;
  not_before = refl;
  not_after = refl;
  ungets_well = refl;
  bound = omega arith;
  buffer = wiped 5;
  allocates = refl;
}

cli_input_read_stream_limited-Delivers_example :
    Gives
      (Delivers small four 4 (codes "four") (omega arith) four-Readable)
      (cli_input_read_stream_limited small four false 4 fresh)
cli_input_read_stream_limited-Delivers_example =
    cli_input_read_stream_limited-Delivers small four 4 (codes "four") (omega arith) four-Readable
      small-Documented four-Reads fresh refl
