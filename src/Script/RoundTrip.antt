-- ===== src/Script/RoundTrip.antt =====
-- What tokenizeLine of src/cli/ScriptParser.cpp makes of arguments that were written in quotes.
use zephyrftp.Base.{
  ℕ, ◌≡◌, refl, ap, ◌∙◌, sym, Bool, true, false, List, [], ◌∷◌, ◌++◌, some, ◌==◌, ◌||◌, arith,
}
use zephyrftp.Base.Text.{Text}
use zephyrftp.Script.Tokens.{between, in_quotes, with_token, tokenize_from, tokenize_line}

unfoldable pub has_quote : Text → Bool
has_quote [] = false
has_quote (c ∷ t) = c == b'"' || has_quote t

abbrev pub NoQuotes : List Text → Type 0
NoQuotes [] = Unit
NoQuotes (t ∷ ts) = (has_quote t ≡ false) × NoQuotes ts

-- each argument in quotes, with a space behind it
unfoldable pub quoted : List Text → Text
quoted [] = []
quoted (t ∷ ts) = b'"' ∷ (t ++ b'"' ∷ (b' ' ∷ quoted ts))

module _ (is_space : ℕ → Bool) where
  append_assoc_one : (p : Text) (c : ℕ) (t : Text) → (p ++ c ∷ []) ++ t ≡ p ++ c ∷ t
  append_assoc_one [] c t = refl
  append_assoc_one (x ∷ p) c t = ap (◌∷◌ x) (append_assoc_one p c t)

  append_nil : (p : Text) → p ++ [] ≡ p
  append_nil [] = refl
  append_nil (x ∷ p) = ap (◌∷◌ x) (append_nil p)

  quotes_step :
      (p : Text) (c : ℕ) (rest : Text)
      → (c == b'"') ≡ false
      → tokenize_from is_space (in_quotes p) (c ∷ rest)
        ≡ tokenize_from is_space (in_quotes (p ++ c ∷ [])) rest
  unfolding tokenize_from
  quotes_step p c rest n = rw (n, tokenize_from) refl

  in_quotes_lem :
      (p t rest : Text)
      → has_quote t ≡ false
      → tokenize_from is_space (in_quotes p) (t ++ b'"' ∷ rest)
        ≡ with_token (p ++ t) (tokenize_from is_space between rest)
  unfolding tokenize_from has_quote
  in_quotes_lem p [] rest h =
      ap (λ token. with_token token (tokenize_from is_space between rest)) (sym (append_nil p))
  in_quotes_lem p (c ∷ t) rest h =
      quotes_step p c (t ++ b'"' ∷ rest) (ground arith)
      ∙ in_quotes_lem (p ++ c ∷ []) t rest (ground arith)
      ∙ ap (λ token. with_token token (tokenize_from is_space between rest))
          (append_assoc_one p c t)

  open_quote :
      (rest : Text)
      → is_space b'"' ≡ false
      → tokenize_from is_space between (b'"' ∷ rest) ≡ tokenize_from is_space (in_quotes []) rest
  unfolding tokenize_from
  open_quote rest q = rw (q, tokenize_from) refl

  skip_space :
      (rest : Text)
      → is_space b' ' ≡ true
      → tokenize_from is_space between (b' ' ∷ rest) ≡ tokenize_from is_space between rest
  unfolding tokenize_from
  skip_space rest s = rw (s, tokenize_from) refl

  -- Where a space separates tokens and a quotation mark does not, arguments without a quotation mark,
  -- each written in quotes with a space behind it, are the tokens of the line, whatever spaces they
  -- hold and also where they are empty.
  pub tokenize_line-quoted :
      (ts : List Text)
      → is_space b'"' ≡ false
      → is_space b' ' ≡ true
      → NoQuotes ts
      → tokenize_line is_space (quoted ts) ≡ some ts
  unfolding tokenize_line tokenize_from quoted
  tokenize_line-quoted [] q s h = refl
  tokenize_line-quoted (t ∷ ts) q s h =
      open_quote (t ++ b'"' ∷ (b' ' ∷ quoted ts)) q
      ∙ in_quotes_lem [] t (b' ' ∷ quoted ts) h.0
      ∙ ap (with_token t) (skip_space (quoted ts) s ∙ tokenize_line-quoted ts q s h.1)
