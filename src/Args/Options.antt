-- ===== src/Args/Options.antt =====
-- The options of the command line as the usage of src/main.c describes them: what they ask for. The
-- reference for src/cli/args.c.
use salt.Base.{ℕ, ◌≡◌, Bool, true, Option, some, List, [], ◌∷◌, Bytes}
use salt.Args.{Got, Cli}
use salt.Output.Emit.{OutputMode, text, json}
use salt.Parse.KeyInput.{KeyFormat}
use salt.Status.{codes}

-- What one option asks for.
pub data Choice : Type 0 where
  key_is : Bytes → Choice
  key_id_is : Bytes → Choice
  mode_is : OutputMode → Choice
  format_is : KeyFormat → Choice
  help_asked : Choice
  version_asked : Choice

-- The options of the program, with the words that two of them take.
pub data Names (opt : ℕ) (arg : Option Bytes) : Choice → Type 0 where
  key : {value : Bytes} → opt ≡ b'k' → arg ≡ some value → Names opt arg (key_is value)
  key_id : {value : Bytes} → opt ≡ b'i' → arg ≡ some value → Names opt arg (key_id_is value)
  output_text : opt ≡ b'o' → arg ≡ some (codes "text") → Names opt arg (mode_is text)
  output_json : opt ≡ b'o' → arg ≡ some (codes "json") → Names opt arg (mode_is json)
  format_auto : opt ≡ b'f' → arg ≡ some (codes "auto") → Names opt arg (format_is KeyFormat.auto)
  format_base64 :
      opt ≡ b'f' → arg ≡ some (codes "base64") → Names opt arg (format_is KeyFormat.base64)
  format_json : opt ≡ b'f' → arg ≡ some (codes "json") → Names opt arg (format_is KeyFormat.json)
  help : opt ≡ b'h' → Names opt arg help_asked
  version : opt ≡ b'V' → Names opt arg version_asked

pub data AllNamed : List Got → List Choice → Type 0 where
  nothing : AllNamed [] []
  one_more :
      {g : Got} {gs : List Got} {c : Choice} {cs : List Choice}
      → Names g.opt g.optarg c
      → AllNamed gs cs
      → AllNamed (g ∷ gs) (c ∷ cs)

-- Of several options of one kind the last one holds, and without one what was there before.
abbrev pub last_key : List Choice → Option Bytes → Option Bytes
last_key [] before = before
last_key (key_is value ∷ cs) before = last_key cs (some value)
last_key (_ ∷ cs) before = last_key cs before

abbrev pub last_key_id : List Choice → Option Bytes → Option Bytes
last_key_id [] before = before
last_key_id (key_id_is value ∷ cs) before = last_key_id cs (some value)
last_key_id (_ ∷ cs) before = last_key_id cs before

abbrev pub last_mode : List Choice → OutputMode → OutputMode
last_mode [] before = before
last_mode (mode_is mode ∷ cs) before = last_mode cs mode
last_mode (_ ∷ cs) before = last_mode cs before

abbrev pub last_format : List Choice → KeyFormat → KeyFormat
last_format [] before = before
last_format (format_is format ∷ cs) before = last_format cs format
last_format (_ ∷ cs) before = last_format cs before

abbrev pub asks_help : List Choice → Bool → Bool
asks_help [] before = before
asks_help (help_asked ∷ cs) before = asks_help cs true
asks_help (_ ∷ cs) before = asks_help cs before

abbrev pub asks_version : List Choice → Bool → Bool
asks_version [] before = before
asks_version (version_asked ∷ cs) before = asks_version cs true
asks_version (_ ∷ cs) before = asks_version cs before

-- Both are what the choices ask for, and nothing else that the checks behind the loop read is changed.
abbrev pub Chosen : List Choice → Cli → Cli → Type 0
Chosen cs w v =
    (v.state.key_option ≡ last_key cs w.state.key_option)
    × (v.state.key_id_option ≡ last_key_id cs w.state.key_id_option)
    × (v.state.output_mode ≡ last_mode cs w.state.output_mode)
    × (v.state.key_format ≡ last_format cs w.state.key_format)
    × (v.state.show_help ≡ asks_help cs w.state.show_help)
    × (v.state.show_version ≡ asks_version cs w.state.show_version)
    × (v.state.plaintext_arg ≡ w.state.plaintext_arg)
    × (v.state.error ≡ w.state.error)
    × (v.out_stream ≡ w.out_stream)
