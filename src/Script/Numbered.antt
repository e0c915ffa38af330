-- ===== src/Script/Numbered.antt =====
-- The lines that the commands of parseScript of src/cli/ScriptParser.cpp name, for the messages of
-- ScriptRunner.
use zephyrftp.Base.{
  ℕ, suc, ◌-◌, ◌≤◌, ◌≡◌, refl, ap, ◌∙◌, subst, sym, Bool, List, [], ◌∷◌, Option, none, some, ◌||◌,
  arith, All, if-elim, get_elem?,
}
use zephyrftp.Base.Text.{Text, is_empty, starts_with}
use zephyrftp.Script.Tokens.{tokenize_line}
use zephyrftp.Script.Commands.{
  ScriptCommand, Parsed, accepted, refused, parse_arguments, parse_command, parse_tokens,
  one_command, add_command, split_lines, parse_line, parse_lines, parse_script,
}

-- The command names the line that it stands on.
abbrev IsFrom : ℕ → Text → ScriptCommand → Type 0
IsFrom n raw c = (c.line_number ≡ n) × (c.raw_line ≡ raw)

-- The command names one of the lines, which are counted from n.
abbrev pub IsAmong : ℕ → List Text → ScriptCommand → Type 0
IsAmong n lines c = (n ≤ c.line_number) × (get_elem? lines (c.line_number - n) ≡ some c.raw_line)

abbrev LineIsFrom : ℕ → Text → Parsed (Option ScriptCommand) → Type 0
LineIsFrom n raw (accepted (some c)) = IsFrom n raw c
LineIsFrom n raw _ = Unit

abbrev ScriptIsAmong : ℕ → List Text → Parsed (List ScriptCommand) → Type 0
ScriptIsAmong n lines (accepted cs) = All (IsAmong n lines) cs
ScriptIsAmong n lines (refused e) = Unit

parse_command-IsFrom :
    (n : ℕ) (raw word : Text) (tokens : List Text) (c : ScriptCommand)
    → parse_command n raw word tokens ≡ accepted c
    → IsFrom n raw c
unfolding parse_command parse_arguments
parse_command-IsFrom n raw word tokens c e = (ground arith, ground arith)

one_command-LineIsFrom :
    (n : ℕ) (raw : Text) (r : Parsed ScriptCommand)
    → ((c : ScriptCommand) → r ≡ accepted c → IsFrom n raw c)
    → LineIsFrom n raw (one_command r)
one_command-LineIsFrom n raw (refused e) h = tt
one_command-LineIsFrom n raw (accepted c) h = h c refl

parse_tokens-LineIsFrom :
    (n : ℕ) (raw : Text) (to_lower : Text → Text) (tokens : Option (List Text))
    → LineIsFrom n raw (parse_tokens n raw to_lower tokens)
unfolding parse_tokens
parse_tokens-LineIsFrom n raw to_lower none = tt
parse_tokens-LineIsFrom n raw to_lower (some []) = tt
parse_tokens-LineIsFrom n raw to_lower (some (word ∷ tokens)) =
    one_command-LineIsFrom n raw (parse_command n raw (to_lower word) tokens)
      (parse_command-IsFrom n raw (to_lower word) tokens)

get_elem?_cong : (lines : List Text) (i j : ℕ) → i ≡ j → get_elem? lines i ≡ get_elem? lines j
get_elem?_cong lines i j e = ap (get_elem? lines) e

get_elem?-later :
    (raw : Text) (lines : List Text) (n k : ℕ)
    → suc n ≤ k
    → get_elem? (raw ∷ lines) (k - n) ≡ get_elem? lines (k - suc n)
get_elem?-later raw lines n k l =
    get_elem?_cong (raw ∷ lines) (k - n) (suc (k - suc n)) (omega arith)

All-IsAmong_later :
    (raw : Text) (lines : List Text) (n : ℕ) (cs : List ScriptCommand)
    → All (IsAmong (suc n) lines) cs
    → All (IsAmong n (raw ∷ lines)) cs
All-IsAmong_later raw lines n [] h = tt
All-IsAmong_later raw lines n (c ∷ cs) ((l, e), h) = (
  (omega arith, get_elem?-later raw lines n c.line_number l ∙ e),
  All-IsAmong_later raw lines n cs h,
)

IsFrom-IsAmong :
    (raw : Text) (lines : List Text) (n : ℕ) (c : ScriptCommand)
    → IsFrom n raw c
    → IsAmong n (raw ∷ lines) c
IsFrom-IsAmong raw lines n c (l, e) = (
  omega arith,
  get_elem?_cong (raw ∷ lines) (c.line_number - n) 0 (omega arith) ∙ ap some (sym e),
)

add_command-ScriptIsAmong :
    (n : ℕ) (raw : Text) (lines : List Text) (line : Parsed (Option ScriptCommand))
    (rest : Parsed (List ScriptCommand))
    → LineIsFrom n raw line
    → ScriptIsAmong (suc n) lines rest
    → ScriptIsAmong n (raw ∷ lines) (add_command line rest)
add_command-ScriptIsAmong n raw lines (refused e) rest h g = tt
add_command-ScriptIsAmong n raw lines (accepted c) (refused e) h g = tt
add_command-ScriptIsAmong n raw lines (accepted none) (accepted cs) h g =
    All-IsAmong_later raw lines n cs g
add_command-ScriptIsAmong n raw lines (accepted (some c)) (accepted cs) h g =
    (IsFrom-IsAmong raw lines n c h, All-IsAmong_later raw lines n cs g)

module _ (is_space : ℕ → Bool) (trimmed to_lower : Text → Text) where
  parse_line-LineIsFrom :
      (n : ℕ) (raw : Text) → LineIsFrom n raw (parse_line is_space trimmed to_lower n raw)
  unfolding parse_line
  parse_line-LineIsFrom n raw =
      if-elim (LineIsFrom n raw) (is_empty (trimmed raw) || starts_with b'#' (trimmed raw))
        (accepted none) (parse_tokens n raw to_lower (tokenize_line is_space (trimmed raw)))
        (λ _. tt)
        (λ _. parse_tokens-LineIsFrom n raw to_lower (tokenize_line is_space (trimmed raw)))

  parse_lines-ScriptIsAmong :
      (n : ℕ) (lines : List Text)
      → ScriptIsAmong n lines (parse_lines is_space trimmed to_lower n lines)
  unfolding parse_lines
  parse_lines-ScriptIsAmong n [] = tt
  parse_lines-ScriptIsAmong n (raw ∷ lines) =
      add_command-ScriptIsAmong n raw lines (parse_line is_space trimmed to_lower n raw)
        (parse_lines is_space trimmed to_lower (suc n) lines) (parse_line-LineIsFrom n raw)
        (parse_lines-ScriptIsAmong (suc n) lines)

  -- Each command of a script that is accepted carries the text of a line of the script and the
  -- number of that line, counted from 1.
  pub parse_script-IsAmong :
      (text : Text) (cs : List ScriptCommand)
      → parse_script is_space trimmed to_lower text ≡ accepted cs
      → All (IsAmong 1 (split_lines text)) cs
  unfolding parse_script
  parse_script-IsAmong text cs e =
      subst (ScriptIsAmong 1 (split_lines text)) e (parse_lines-ScriptIsAmong 1 (split_lines text))
