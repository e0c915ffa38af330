-- ===== src/Base/Split.antt =====
-- QString::split, join and the searches for a character.
use Prim.Native.Nat.{ℕ}
use mathlib.Core.Path.{◌≡◌, refl, ap, ◌∙◌}
use mathlib.Core.Bool.{Bool, true, false, ◌||◌}
use mathlib.Core.List.{List, [], ◌∷◌, ◌++◌}
use mathlib.Core.Option.{Option, none, some}
use native.Mathlib.Omega.{arith}
use zephyrftp.Base.Tests.{◌==◌, ==_refl, if◌then◌else◌}
use zephyrftp.Base.Text.{Text}

unfoldable pub has_char : ℕ → Text → Bool
has_char c [] = false
has_char c (a ∷ s) = a == c || has_char c s

abbrev pub to_first : ℕ → List Text → List Text
to_first c [] = (c ∷ []) ∷ []
to_first c (s ∷ ss) = (c ∷ s) ∷ ss

-- split at every c, empty parts kept
unfoldable pub split : ℕ → Text → List Text
split c [] = [] ∷ []
split c (a ∷ s) = let parts = split c s in if a == c then [] ∷ parts else to_first a parts

unfoldable pub join : Text → List Text → Text
join sep [] = []
join sep (s ∷ []) = s
join sep (s ∷ t ∷ ts) = s ++ (sep ++ join sep (t ∷ ts))

-- what stands before the first c, and behind it
unfoldable pub before : ℕ → Text → Option Text
before c [] = none
before c (a ∷ s) = elim (a == c) [
  | true ↦ some []
  | false ↦ elim (before c s) [ none ↦ none | some t ↦ some (a ∷ t) ]
]

unfoldable pub behind : ℕ → Text → Option Text
behind c [] = none
behind c (a ∷ s) = elim (a == c) [ true ↦ some s | false ↦ behind c s ]

pub split-append :
    (c : ℕ) (s t : Text) → has_char c s ≡ false → split c (s ++ c ∷ t) ≡ s ∷ split c t
unfolding split has_char
split-append c [] t h = rw (==_refl c) refl
split-append c (a ∷ s) t h = ground (arith, split-append c s t)

pub split_single : (c : ℕ) (s : Text) → has_char c s ≡ false → split c s ≡ s ∷ []
unfolding split has_char
split_single c [] h = refl
split_single c (a ∷ s) h = ground (arith, split_single c s)

pub before-append : (c : ℕ) (s t : Text) → has_char c s ≡ false → before c (s ++ c ∷ t) ≡ some s
unfolding before has_char
before-append c [] t h = rw (==_refl c, before) refl
before-append c (a ∷ s) t h = ground (arith, before-append c s t)

pub behind-append : (c : ℕ) (s t : Text) → has_char c s ≡ false → behind c (s ++ c ∷ t) ≡ some t
unfolding behind has_char
behind-append c [] t h = rw (==_refl c, behind) refl
behind-append c (a ∷ s) t h = ground (arith, behind-append c s t)

pub has_char-append : (c : ℕ) (s t : Text) → has_char c (s ++ t) ≡ (has_char c s || has_char c t)
unfolding has_char
has_char-append c [] t = refl
has_char-append c (a ∷ s) t = ground (arith, has_char-append c s t)

-- No part holds the separator.
abbrev pub Free : ℕ → List Text → Type 0
Free c [] = Unit
Free c (s ∷ ss) = (has_char c s ≡ false) × Free c ss

-- Parts that were joined by a character are split at it again.
pub split-join :
    (c : ℕ) (s : Text) (ss : List Text)
    → has_char c s ≡ false
    → Free c ss
    → split c (join (c ∷ []) (s ∷ ss)) ≡ s ∷ ss
unfolding join
split-join c s [] h f = split_single c s h
split-join c s (t ∷ ts) h f =
    split-append c s (join (c ∷ []) (t ∷ ts)) h ∙ ap (◌∷◌ s) (split-join c t ts f.0 f.1)

pub has_char-join :
    (c : ℕ) (sep : Text) (ss : List Text)
    → has_char c sep ≡ false
    → Free c ss
    → has_char c (join sep ss) ≡ false
unfolding join has_char
has_char-join c sep [] h f = refl
has_char-join c sep (s ∷ []) h f = f.0
has_char-join c sep (s ∷ t ∷ ts) h f = ground (
  arith,
  has_char-append c s (sep ++ join sep (t ∷ ts)),
  has_char-append c sep (join sep (t ∷ ts)),
  has_char-join c sep (t ∷ ts) h f.1,
)
