-- ===== src/Script/Examples.antt =====
-- A script of three lines, with the ASCII part of QChar::isSpace and QString::toLower.
use zephyrftp.Base.{
  ℕ, ◌+◌, ◌≡◌, refl, Bool, true, false, ◌&&◌, ◌||◌, List, [], ◌∷◌, map, some, ◌==◌, leb,
  if◌then◌else◌, All,
}
use mathlib.Core.List.{reverse}
use zephyrftp.Base.Text.{Text, codes, text_eq, starts_with}
use zephyrftp.Script.Tokens.{tokenize_from, tokenize_line}
use zephyrftp.Script.Commands.{
  ScriptCommandType, ScriptCommand, find_command, lookup_command, join_tokens, parse_arguments,
  parse_command, parse_tokens, split_lines, parse_line, parse_lines, parse_script,
}
use zephyrftp.Script.RoundTrip.{has_quote, quoted, tokenize_line-quoted}
use zephyrftp.Script.Accepted.{Fits, parse_script-Fits}
use zephyrftp.Script.Numbered.{IsAmong, parse_script-IsAmong}

abbrev ascii_space : ℕ → Bool
ascii_space c = c == 32 || (leb 9 c && leb c 13)

unfoldable without_spaces : Text → Text
without_spaces [] = []
without_spaces (c ∷ t) = elim (ascii_space c) [ true ↦ without_spaces t | false ↦ c ∷ t ]

abbrev ascii_trimmed : Text → Text
unfolding without_spaces
ascii_trimmed t = reverse (without_spaces (reverse (without_spaces t)))

abbrev ascii_lower : Text → Text
ascii_lower t = map (λ c. if leb 65 c && leb c 90 then c + 32 else c) t

abbrev script_lines : Text
script_lines = codes "# nightly\n Mirror \"/my files\" /srv --delete \nbye"

abbrev script_commands : List ScriptCommand
script_commands =
    record {
      type = ScriptCommandType.mirror;
      args = codes "/my files" ∷ (codes "/srv" ∷ (codes "--delete" ∷ []));
      line_number = 2;
      raw_line = codes " Mirror \"/my files\" /srv --delete ";
    }
    ∷ (record { type = ScriptCommandType.exit; args = []; line_number = 3; raw_line = codes "bye" }
        ∷ [])

parse_script-Fits_example : All Fits script_commands
unfolding parse_script parse_lines parse_line parse_tokens parse_command parse_arguments
    lookup_command find_command join_tokens split_lines tokenize_line tokenize_from text_eq
    starts_with without_spaces
parse_script-Fits_example =
    parse_script-Fits ascii_space ascii_trimmed ascii_lower script_lines script_commands refl

tokenize_line-quoted_example :
    tokenize_line ascii_space (quoted (codes "/my files" ∷ ([] ∷ [])))
    ≡ some (codes "/my files" ∷ ([] ∷ []))
unfolding has_quote
tokenize_line-quoted_example =
    tokenize_line-quoted ascii_space (codes "/my files" ∷ ([] ∷ [])) refl refl (refl, (refl, tt))

parse_script-IsAmong_example : All (IsAmong 1 (split_lines script_lines)) script_commands
unfolding parse_script parse_lines parse_line parse_tokens parse_command parse_arguments
    lookup_command find_command join_tokens split_lines tokenize_line tokenize_from text_eq
    starts_with without_spaces
parse_script-IsAmong_example =
    parse_script-IsAmong ascii_space ascii_trimmed ascii_lower script_lines script_commands refl
