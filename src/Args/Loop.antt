-- ===== src/Args/Loop.antt =====
-- src/cli/args.c: the loop over the options.
use salt.Base.{◌≡◌, refl, false, ◌&&◌, some, List, [], ◌∷◌, at_false, if◌then◌else◌, ◌>>=◌}
use salt.Args.{Got, Cli, Run, parse_options, salt_cli_handle_option}
use salt.Args.Handled.{
  takes_argument, is_missing, set, Handled, taken, unknown, salt_cli_handle_option-Handled,
}
use salt.Args.Options.{
  Choice, key_is, key_id_is, mode_is, format_is, help_asked, version_asked, Names, AllNamed,
  nothing, one_more, Chosen,
}
use salt.Status.{Status, salt_ok, is_ok}

-- What the documentation of `getopt_long` promises of its results for this table of options: `optarg`
-- is set where the option takes an argument.
abbrev pub HasArguments : List Got → Type 0
HasArguments [] = Unit
HasArguments (g ∷ gs) = ((takes_argument g.opt && is_missing g.optarg) ≡ false) × HasArguments gs

abbrev set_all : List Choice → Cli → Cli
set_all [] w = w
set_all (c ∷ cs) w = set_all cs (set c w)

set_all-Chosen : (cs : List Choice) (w : Cli) → Chosen cs w (set_all cs w)
set_all-Chosen [] w = (refl, refl, refl, refl, refl, refl, refl, refl, refl)
set_all-Chosen (key_is value ∷ cs) w = set_all-Chosen cs (set (key_is value) w)
set_all-Chosen (key_id_is value ∷ cs) w = set_all-Chosen cs (set (key_id_is value) w)
set_all-Chosen (mode_is mode ∷ cs) w = set_all-Chosen cs (set (mode_is mode) w)
set_all-Chosen (format_is format ∷ cs) w = set_all-Chosen cs (set (format_is format) w)
set_all-Chosen (help_asked ∷ cs) w = set_all-Chosen cs (set help_asked w)
set_all-Chosen (version_asked ∷ cs) w = set_all-Chosen cs (set version_asked w)

-- The loop over the options ends with a state that is what they ask for, or with an error at one that
-- the program does not have.
pub data Looped (gs : List Got) (w : Cli) : Run → Type 0 where
  took_all :
      {v : Cli} (cs : List Choice)
      → AllNamed gs cs
      → Chosen cs w v
      → Looped gs w (some (salt_ok, v))
  stopped :
      {r : Status × Cli}
      → ((cs : List Choice) → ¬ AllNamed gs cs)
      → is_ok r.0 ≡ false
      → Looped gs w (some r)

-- The same, with the choices that were set one by one.
data Stepped (gs : List Got) (w : Cli) : Run → Type 0 where
  through : (cs : List Choice) → AllNamed gs cs → Stepped gs w (some (salt_ok, set_all cs w))
  halted :
      {r : Status × Cli}
      → ((cs : List Choice) → ¬ AllNamed gs cs)
      → is_ok r.0 ≡ false
      → Stepped gs w (some r)

AllNamed-first :
    (g : Got) (gs : List Got) (cs : List Choice)
    → AllNamed (g ∷ gs) cs
    → (c : Choice) × Names g.opt g.optarg c
AllNamed-first g gs _ (one_more {c = c} n rest) = (c, n)

AllNamed-rest :
    (g : Got) (gs : List Got) (cs : List Choice)
    → AllNamed (g ∷ gs) cs
    → (rest : List Choice) × AllNamed gs rest
AllNamed-rest g gs _ (one_more {cs = cs} n rest) = (cs, rest)

parse_options-Stepped :
    (gs : List Got) (w : Cli) → HasArguments gs → Stepped gs w (parse_options gs w)
unfolding parse_options
parse_options-Stepped [] w h = through [] nothing
parse_options-Stepped (g ∷ gs) w (first, h) =
    next (salt_cli_handle_option g w) (salt_cli_handle_option-Handled g w first)
      (λ v. parse_options-Stepped gs v h)
  where
    after :
        (c : Choice) (run : Run)
        → Names g.opt g.optarg c
        → Stepped gs (set c w) run
        → Stepped (g ∷ gs) w run
    after c _ n (through cs all) = through (c ∷ cs) (one_more n all)
    after c _ n (halted none_of bad) =
        halted (λ cs all. let (rest, r) = AllNamed-rest g gs cs all in none_of rest r) bad

    next :
        (run : Run)
        → Handled g.opt g.optarg w run
        → ((v : Cli) → Stepped gs v (parse_options gs v))
        → Stepped
            (g ∷ gs)
            w
            (run >>= (λ r. let rest = parse_options gs r.1 in if is_ok r.0 then rest else some r))
    next _ (taken {c = c} n) further = after c _ n (further (set c w))
    next _ (unknown {r = r} none_of bad) further =
        at_false (Stepped (g ∷ gs) w) (is_ok r.0) _ _ bad
          (halted (λ cs all. let (c, n) = AllNamed-first g gs cs all in none_of c n) bad)

pub parse_options-Looped :
    (gs : List Got) (w : Cli) → HasArguments gs → Looped gs w (parse_options gs w)
parse_options-Looped gs w h = looped (parse_options gs w) (parse_options-Stepped gs w h)
  where
    looped : (run : Run) → Stepped gs w run → Looped gs w run
    looped _ (through cs all) = took_all cs all (set_all-Chosen cs w)
    looped _ (halted none_of bad) = stopped none_of bad
