-- ===== src/Ftp/Qt.antt =====
-- The conversions of QString that depend on Unicode or on the locale, and what is relied on.
use zephyrftp.Base.{ℕ, ◌<◌, ◌^◌, ◌≡◌, Option, some}
use zephyrftp.Base.Int.{ℤ, pos}
use zephyrftp.Base.Text.{Text, show_ℕ}

pub record Strings : Type 0 where
  pub to_int : Text → Option ℤ
  pub trimmed : Text → Text

-- A number of int that was written in decimal reads back, and has no spaces to trim.
pub record ReadsDecimals (q : Strings) : Type 0 where
  pub to_int-show_ℕ : (n : ℕ) → n < 2 ^ 31 → q.to_int (show_ℕ n) ≡ some (pos n)
  pub trimmed-show_ℕ : (n : ℕ) → q.trimmed (show_ℕ n) ≡ show_ℕ n
