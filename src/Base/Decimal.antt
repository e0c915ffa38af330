-- ===== src/Base/Decimal.antt =====
-- Decimal numbers: the digits that QString::number writes are read back by a reader of digits.
use Prim.Native.Nat.{ℕ, zero, suc, ◌+◌, ◌-◌, ◌*◌, ◌/◌, ◌%◌, ◌<◌}
use mathlib.Core.Path.{◌≡◌, refl, ap, ◌∙◌}
use mathlib.Core.Bool.{Bool, true, false, ◌&&◌}
use mathlib.Core.List.{[], ◌∷◌, ◌++◌}
use mathlib.Core.Logic.{inl, inr}
use mathlib.Core.Option.{Option, none, some}
use native.Mathlib.Omega.{arith}
use zephyrftp.Base.Tests.{ltb, leb, Bool-cases, if◌then◌else◌}
use zephyrftp.Base.Text.{Text, decimal, show_ℕ}
use zephyrftp.Base.Split.{has_char, has_char-append}

abbrev pub is_digit : ℕ → Bool
is_digit c = leb b'0' c && leb c b'9'

unfoldable pub read_digits : ℕ → Text → Option ℕ
read_digits value [] = some value
read_digits value (c ∷ s) =
    let further = read_digits (value * 10 + (c - b'0')) s in if is_digit c then further else none

unfoldable pub read_ℕ : Text → Option ℕ
unfolding read_digits
read_ℕ [] = none
read_ℕ (c ∷ s) = read_digits 0 (c ∷ s)

read_digits-append :
    (s : Text) (v w c : ℕ)
    → read_digits v s ≡ some w
    → is_digit c ≡ true
    → read_digits v (s ++ c ∷ []) ≡ some (w * 10 + (c - b'0'))
unfolding read_digits
read_digits-append [] v w c h d = ground arith
read_digits-append (a ∷ s) v w c h d =
    ground (arith, read_digits-append s (v * 10 + (a - b'0')) w c)

read_digits-decimal : (k n : ℕ) → n < k → read_digits 0 (decimal k n) ≡ some n
unfolding decimal
read_digits-decimal zero n h = absurd (omega arith)
read_digits-decimal (suc k) n h = elim (Bool-cases (ltb n 10)) [
  | inl small ↦ rw small (digit n (ground arith))
  | inr large ↦
      let front : read_digits 0 (decimal k (n / 10)) ≡ some (n / 10) =
        read_digits-decimal k (n / 10) (ground arith) in
      rw large (
        read_digits-append (decimal k (n / 10)) 0 (n / 10) (b'0' + n % 10) front (ground arith)
        ∙ ap some (omega arith))
]
  where
    digit : (d : ℕ) → d < 10 → read_digits 0 ((b'0' + d % 10) ∷ []) ≡ some d
    digit d l = unfold read_digits in ground arith

read_ℕ-append : (s : Text) (c : ℕ) → read_ℕ (s ++ c ∷ []) ≡ read_digits 0 (s ++ c ∷ [])
unfolding read_ℕ
read_ℕ-append [] c = refl
read_ℕ-append (a ∷ s) c = refl

decimal_digits : (k n c : ℕ) → is_digit c ≡ false → has_char c (decimal k n) ≡ false
unfolding decimal has_char
decimal_digits zero n c h = refl
decimal_digits (suc k) n c h = ground (
  arith,
  decimal_digits k (n / 10) c,
  has_char-append c (decimal k (n / 10)) ((b'0' + n % 10) ∷ []),
)

-- A character that is no digit does not stand in a number.
pub has_char-show_ℕ : (n c : ℕ) → is_digit c ≡ false → has_char c (show_ℕ n) ≡ false
unfolding show_ℕ
has_char-show_ℕ n c h = decimal_digits (suc n) n c h

pub read_ℕ-show_ℕ : (n : ℕ) → read_ℕ (show_ℕ n) ≡ some n
unfolding show_ℕ
read_ℕ-show_ℕ n = same n ∙ read_digits-decimal (suc n) n (omega arith)
  where
    same : (n : ℕ) → read_ℕ (decimal (suc n) n) ≡ read_digits 0 (decimal (suc n) n)
    same n = elim (Bool-cases (ltb n 10)) [
      | inl small ↦ unfold decimal in rw small (read_ℕ-append [] (b'0' + n % 10))
      | inr large ↦ unfold decimal in rw large (read_ℕ-append (decimal n (n / 10)) (b'0' + n % 10))
    ]
