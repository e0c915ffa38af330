-- ===== src/Script/Tokens.antt =====
-- tokenizeLine of src/cli/ScriptParser.cpp. QChar::isSpace is a parameter; a QChar is its code unit.
use zephyrftp.Base.{ℕ, Bool, true, false, List, [], ◌∷◌, ◌++◌, Option, none, some, ◌==◌}
use zephyrftp.Base.Text.{Text}

-- Which of the loops over the line is running, with the token that it has passed over.
pub data Place : Type 0 where
  between : Place
  in_word : Text → Place
  in_quotes : Text → Place

-- tokens.append(token)
abbrev pub with_token : Text → Option (List Text) → Option (List Text)
with_token token none = none
with_token token (some tokens) = some (token ∷ tokens)

module _ (is_space : ℕ → Bool) where
  -- `none` is *ok = false.
  unfoldable pub tokenize_from : Place → Text → Option (List Text)
  tokenize_from between [] = some []
  tokenize_from between (c ∷ line) = elim (is_space c) [
    | true ↦ tokenize_from between line
    | false ↦ elim (c == b'"') [
      | true ↦ tokenize_from (in_quotes []) line
      | false ↦ tokenize_from (in_word (c ∷ [])) line
    ]
  ]
  tokenize_from (in_word token) [] = some (token ∷ [])
  tokenize_from (in_word token) (c ∷ line) = elim (is_space c) [
    | true ↦ with_token token (tokenize_from between line)
    | false ↦ tokenize_from (in_word (token ++ c ∷ [])) line
  ]
  tokenize_from (in_quotes token) [] = none
  tokenize_from (in_quotes token) (c ∷ line) = elim (c == b'"') [
    | true ↦ with_token token (tokenize_from between line)
    | false ↦ tokenize_from (in_quotes (token ++ c ∷ [])) line
  ]

  unfoldable pub tokenize_line : Text → Option (List Text)
  unfolding tokenize_from
  tokenize_line line = tokenize_from between line
