-- ===== src/Script/Commands.antt =====
-- ScriptCommand.h and parseScript of ScriptParser.cpp, both in src/cli. QString's trimmed and toLower
-- are parameters.
use zephyrftp.Base.{
  ℕ, suc, Bool, true, false, ◌||◌, List, [], ◌∷◌, ◌++◌, Option, none, some, ◌==◌, ltb, length,
  if◌then◌else◌,
}
use zephyrftp.Base.Text.{Text, codes, text_eq, is_empty, starts_with}
use zephyrftp.Script.Tokens.{tokenize_line}

pub data ScriptCommandType : Type 0 where
  open_site cd lcd get put ls lls rm mkdir mv mirror echo exit : ScriptCommandType

pub record ScriptCommand : Type 0 where
  pub type : ScriptCommandType
  pub args : List Text
  pub line_number : ℕ
  pub raw_line : Text

pub record CommandSpec : Type 0 where
  pub type : ScriptCommandType
  pub min_args : ℕ
  pub max_args : ℕ

-- The texts of the errors differ in these.
pub data ScriptError : Type 0 where
  unterminated : ℕ → ScriptError
  unknown_command : ℕ → Text → ScriptError
  wrong_count : ℕ → Text → ℕ → ℕ → ℕ → ScriptError
  not_delete : ℕ → Text → ScriptError

pub data Parsed (A : Type 0) : Type 0 where
  accepted : A → Parsed A
  refused : ScriptError → Parsed A

-- the table of lookupCommand
abbrev pub command_table : List (Text × CommandSpec)
command_table =
    (codes "open", record { type = open_site; min_args = 1; max_args = 1 })
    ∷ (codes "cd", record { type = cd; min_args = 1; max_args = 1 })
    ∷ (codes "lcd", record { type = lcd; min_args = 1; max_args = 1 })
    ∷ (codes "get", record { type = get; min_args = 1; max_args = 1 })
    ∷ (codes "put", record { type = put; min_args = 1; max_args = 1 })
    ∷ (codes "ls", record { type = ls; min_args = 0; max_args = 0 })
    ∷ (codes "lls", record { type = lls; min_args = 0; max_args = 0 })
    ∷ (codes "rm", record { type = rm; min_args = 1; max_args = 1 })
    ∷ (codes "mkdir", record { type = mkdir; min_args = 1; max_args = 1 })
    ∷ (codes "mv", record { type = mv; min_args = 2; max_args = 2 })
    ∷ (codes "mirror", record { type = mirror; min_args = 2; max_args = 3 })
    ∷ (codes "exit", record { type = exit; min_args = 0; max_args = 0 })
    ∷ (codes "bye", record { type = exit; min_args = 0; max_args = 0 })
    ∷ []

unfoldable pub find_command : Text → List (Text × CommandSpec) → Option CommandSpec
find_command word [] = none
find_command word (entry ∷ table) = elim (text_eq entry.0 word) [
  | true ↦ some entry.1
  | false ↦ find_command word table
]

unfoldable pub lookup_command : Text → Option CommandSpec
unfolding find_command
lookup_command word = find_command word command_table

-- tokens.join(' ')
unfoldable pub join_tokens : List Text → Text
join_tokens [] = []
join_tokens (t ∷ []) = t
join_tokens (t ∷ u ∷ ts) = t ++ b' ' ∷ join_tokens (u ∷ ts)

abbrev pub is_mirror : ScriptCommandType → Bool
is_mirror mirror = true
is_mirror _ = false

-- whether the third of three arguments is another one than --delete
abbrev pub wrong_flag : List Text → Option Text
wrong_flag (a ∷ b ∷ flag ∷ []) = if text_eq flag (codes "--delete") then none else some flag
wrong_flag _ = none

abbrev pub command_of : ScriptCommandType → List Text → ℕ → Text → ScriptCommand
command_of type args n raw = record { type = type; args = args; line_number = n; raw_line = raw }

-- a command word that is in the table, with the tokens behind it
unfoldable pub parse_arguments : ℕ → Text → Text → CommandSpec → List Text → Parsed ScriptCommand
parse_arguments n raw word spec tokens =
    if ltb (length tokens) spec.min_args || ltb spec.max_args (length tokens)
    then refused (wrong_count n word spec.min_args spec.max_args (length tokens))
    else (elim (if is_mirror spec.type then wrong_flag tokens else none) [
      | some flag ↦ refused (not_delete n flag)
      | none ↦ accepted (command_of spec.type tokens n raw)
    ])

unfoldable pub parse_command : ℕ → Text → Text → List Text → Parsed ScriptCommand
unfolding lookup_command join_tokens parse_arguments
parse_command n raw word tokens =
    if text_eq word (codes "echo")
    then accepted (command_of echo (join_tokens tokens ∷ []) n raw)
    else (elim (lookup_command word) [
      | none ↦ refused (unknown_command n word)
      | some spec ↦ parse_arguments n raw word spec tokens
    ])

abbrev pub one_command : Parsed ScriptCommand → Parsed (Option ScriptCommand)
one_command (refused e) = refused e
one_command (accepted c) = accepted (some c)

-- a line that was tokenized; `none` is a continue
unfoldable pub parse_tokens :
    ℕ → Text → (Text → Text) → Option (List Text) → Parsed (Option ScriptCommand)
unfolding parse_command
parse_tokens n raw to_lower none = refused (unterminated n)
parse_tokens n raw to_lower (some []) = accepted none
parse_tokens n raw to_lower (some (word ∷ tokens)) =
    one_command (parse_command n raw (to_lower word) tokens)

-- commands.append(cmd); an error of this line comes before those of the lines behind it
abbrev pub add_command :
    Parsed (Option ScriptCommand) → Parsed (List ScriptCommand) → Parsed (List ScriptCommand)
add_command (refused e) rest = refused e
add_command (accepted c) (refused e) = refused e
add_command (accepted none) (accepted cs) = accepted cs
add_command (accepted (some c)) (accepted cs) = accepted (c ∷ cs)

-- text.split('\n')
unfoldable pub split_lines : Text → List Text
split_lines [] = [] ∷ []
split_lines (c ∷ text) = elim (split_lines text) [
  | [] ↦ [] ∷ []
  | line ∷ lines ↦ if c == 10 then [] ∷ (line ∷ lines) else (c ∷ line) ∷ lines
]

module _ (is_space : ℕ → Bool) (trimmed to_lower : Text → Text) where
  -- the body of the loop over the lines
  unfoldable pub parse_line : ℕ → Text → Parsed (Option ScriptCommand)
  unfolding tokenize_line parse_tokens starts_with
  parse_line n raw =
      if is_empty (trimmed raw) || starts_with b'#' (trimmed raw)
      then accepted none
      else parse_tokens n raw to_lower (tokenize_line is_space (trimmed raw))

  unfoldable pub parse_lines : ℕ → List Text → Parsed (List ScriptCommand)
  unfolding parse_line
  parse_lines n [] = accepted []
  parse_lines n (raw ∷ lines) = add_command (parse_line n raw) (parse_lines (suc n) lines)

  unfoldable pub parse_script : Text → Parsed (List ScriptCommand)
  unfolding parse_lines split_lines
  parse_script text = parse_lines 1 (split_lines text)
