-- ===== src/Script/Accepted.antt =====
-- What holds of the commands that parseScript of src/cli/ScriptParser.cpp returns, on which
-- ScriptRunner relies when it reads their arguments by index.
use zephyrftp.Base.{
  ℕ, suc, subst, ◌≡◌, refl, Bool, true, false, ◌||◌, List, [], ◌∷◌, Option, none, some, inl, inr,
  ◌==◌, ltb, length, if◌then◌else◌, arith, Bool-cases, All, if-elim,
}
use zephyrftp.Base.Text.{Text, codes, text_eq, is_empty, starts_with}
use zephyrftp.Script.Tokens.{tokenize_line}
use zephyrftp.Script.Commands.{
  parse_tokens, one_command, add_command, split_lines, ScriptCommandType, ScriptCommand,
  CommandSpec, Parsed, accepted, refused, find_command, lookup_command, command_table, is_mirror,
  wrong_flag, parse_arguments, parse_command, parse_line, parse_lines, parse_script,
}

-- The arguments that a command of each type has.
abbrev pub fits : ScriptCommandType → List Text → Bool
fits ScriptCommandType.open_site args = length args == 1
fits ScriptCommandType.cd args = length args == 1
fits ScriptCommandType.lcd args = length args == 1
fits ScriptCommandType.get args = length args == 1
fits ScriptCommandType.put args = length args == 1
fits ScriptCommandType.ls args = length args == 0
fits ScriptCommandType.lls args = length args == 0
fits ScriptCommandType.rm args = length args == 1
fits ScriptCommandType.mkdir args = length args == 1
fits ScriptCommandType.mv args = length args == 2
fits ScriptCommandType.mirror (local_directory ∷ remote_directory ∷ []) = true
fits ScriptCommandType.mirror (local_directory ∷ remote_directory ∷ flag ∷ []) =
    text_eq flag (codes "--delete")
fits ScriptCommandType.mirror _ = false
fits ScriptCommandType.echo args = length args == 1
fits ScriptCommandType.exit args = length args == 0

abbrev pub Fits : ScriptCommand → Type 0
Fits c = fits c.type c.args ≡ true

-- Bounds of a table entry that are those of its type.
abbrev Sound : CommandSpec → Type 0
Sound spec =
    (tokens : List Text)
    → (ltb (length tokens) spec.min_args || ltb spec.max_args (length tokens)) ≡ false
    → (if is_mirror spec.type then wrong_flag tokens else none) ≡ none
    → fits spec.type tokens ≡ true

mirror_fits :
    (tokens : List Text)
    → (ltb (length tokens) 2 || ltb 3 (length tokens)) ≡ false
    → wrong_flag tokens ≡ none
    → fits ScriptCommandType.mirror tokens ≡ true
mirror_fits [] h w = ground arith
mirror_fits (a ∷ []) h w = ground arith
mirror_fits (a ∷ b ∷ []) h w = refl
mirror_fits (a ∷ b ∷ flag ∷ []) h w = ground arith
mirror_fits (a ∷ b ∷ flag ∷ d ∷ ts) h w = ground arith

find_command-Sound :
    (table : List (Text × CommandSpec)) (word : Text) (spec : CommandSpec)
    → All (λ entry. Sound entry.1) table
    → find_command word table ≡ some spec
    → Sound spec
unfolding find_command
find_command-Sound [] word spec h e = ground arith
find_command-Sound (entry ∷ table) word spec h e = elim (Bool-cases (text_eq entry.0 word)) [
  | inl same ↦ subst Sound (ground arith) h.0
  | inr other ↦ find_command-Sound table word spec h.1 (ground arith)
]

one_fits :
    (tokens : List Text)
    → (ltb (length tokens) 1 || ltb 1 (length tokens)) ≡ false
    → (length tokens == 1) ≡ true
one_fits tokens h = ground arith

none_fits :
    (tokens : List Text)
    → (ltb (length tokens) 0 || ltb 0 (length tokens)) ≡ false
    → (length tokens == 0) ≡ true
none_fits tokens h = ground arith

lookup_command-Sound :
    (word : Text) (spec : CommandSpec) → lookup_command word ≡ some spec → Sound spec
unfolding lookup_command find_command
lookup_command-Sound word spec e =
    find_command-Sound command_table word spec
      (
        (λ ts h w. one_fits ts h),
        (
          (λ ts h w. one_fits ts h),
          (
            (λ ts h w. one_fits ts h),
            (
              (λ ts h w. one_fits ts h),
              (
                (λ ts h w. one_fits ts h),
                (
                  (λ ts h w. none_fits ts h),
                  (
                    (λ ts h w. none_fits ts h),
                    (
                      (λ ts h w. one_fits ts h),
                      (
                        (λ ts h w. one_fits ts h),
                        (
                          (λ ts h w. ground arith),
                          (
                            (mirror_fits),
                            ((λ ts h w. none_fits ts h), ((λ ts h w. none_fits ts h), tt)),
                          ),
                        ),
                      ),
                    ),
                  ),
                ),
              ),
            ),
          ),
        ),
      )
      e

parse_command-Fits :
    (n : ℕ) (raw word : Text) (tokens : List Text) (c : ScriptCommand)
    → parse_command n raw word tokens ≡ accepted c
    → Fits c
unfolding parse_command parse_arguments
parse_command-Fits n raw word tokens c e = ground (arith, lookup_command-Sound word)

abbrev LineFits : Parsed (Option ScriptCommand) → Type 0
LineFits (accepted (some c)) = Fits c
LineFits _ = Unit

abbrev ScriptFits : Parsed (List ScriptCommand) → Type 0
ScriptFits (accepted cs) = All Fits cs
ScriptFits (refused e) = Unit

one_command-LineFits :
    (r : Parsed ScriptCommand)
    → ((c : ScriptCommand) → r ≡ accepted c → Fits c)
    → LineFits (one_command r)
one_command-LineFits (refused e) h = tt
one_command-LineFits (accepted c) h = h c refl

parse_tokens-LineFits :
    (n : ℕ) (raw : Text) (to_lower : Text → Text) (tokens : Option (List Text))
    → LineFits (parse_tokens n raw to_lower tokens)
unfolding parse_tokens
parse_tokens-LineFits n raw to_lower none = tt
parse_tokens-LineFits n raw to_lower (some []) = tt
parse_tokens-LineFits n raw to_lower (some (word ∷ tokens)) =
    one_command-LineFits (parse_command n raw (to_lower word) tokens)
      (parse_command-Fits n raw (to_lower word) tokens)

add_command-ScriptFits :
    (line : Parsed (Option ScriptCommand)) (rest : Parsed (List ScriptCommand))
    → LineFits line
    → ScriptFits rest
    → ScriptFits (add_command line rest)
add_command-ScriptFits (refused e) rest h g = tt
add_command-ScriptFits (accepted c) (refused e) h g = tt
add_command-ScriptFits (accepted none) (accepted cs) h g = g
add_command-ScriptFits (accepted (some c)) (accepted cs) h g = (h, g)

module _ (is_space : ℕ → Bool) (trimmed to_lower : Text → Text) where
  parse_line-LineFits : (n : ℕ) (raw : Text) → LineFits (parse_line is_space trimmed to_lower n raw)
  unfolding parse_line
  parse_line-LineFits n raw =
      if-elim LineFits (is_empty (trimmed raw) || starts_with b'#' (trimmed raw)) (accepted none)
        (parse_tokens n raw to_lower (tokenize_line is_space (trimmed raw))) (λ _. tt)
        (λ _. parse_tokens-LineFits n raw to_lower (tokenize_line is_space (trimmed raw)))

  parse_lines-ScriptFits :
      (n : ℕ) (lines : List Text) → ScriptFits (parse_lines is_space trimmed to_lower n lines)
  unfolding parse_lines
  parse_lines-ScriptFits n [] = tt
  parse_lines-ScriptFits n (raw ∷ lines) =
      add_command-ScriptFits (parse_line is_space trimmed to_lower n raw)
        (parse_lines is_space trimmed to_lower (suc n) lines) (parse_line-LineFits n raw)
        (parse_lines-ScriptFits (suc n) lines)

  -- Each command of a script that is accepted has the arguments that its type calls for: their
  -- number, and for a third argument of mirror that it is --delete.
  pub parse_script-Fits :
      (text : Text) (cs : List ScriptCommand)
      → parse_script is_space trimmed to_lower text ≡ accepted cs
      → All Fits cs
  unfolding parse_script
  parse_script-Fits text cs e = subst ScriptFits e (parse_lines-ScriptFits 1 (split_lines text))
