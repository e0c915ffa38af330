-- ===== src/Ftp/Reply.antt =====
-- readReply of backends/FtpBackend.cpp. The control connection is the lines that will arrive, without
-- their line ends; after the last of them the wait for a line times out.
use zephyrftp.Base.{
  ℕ, suc, Bool, true, false, ◌&&◌, List, [], ◌∷◌, ◌++◌, Option, none, some, ◌==◌, ltb,
  if◌then◌else◌, length, take, drop, get_elem?,
}
use zephyrftp.Base.Int.{ℤ, pos, negsuc}
use zephyrftp.Base.Text.{Text, show_ℕ}
use zephyrftp.Base.Split.{join}
use zephyrftp.Ftp.Qt.{Strings}

pub record FtpReply : Type 0 where
  pub code : ℤ
  pub text : Text

abbrev pub no_reply : FtpReply
no_reply = record { code = pos 0; text = [] }

-- FtpReply::isValid
abbrev pub is_positive : ℤ → Bool
is_positive (pos n) = ltb 0 n
is_positive (negsuc n) = false

unfoldable pub is_valid : FtpReply → Bool
is_valid r = is_positive r.code

-- QString::number
unfoldable pub show_ℤ : ℤ → Text
show_ℤ (pos n) = show_ℕ n
show_ℤ (negsuc n) = b'-' ∷ show_ℕ (suc n)

-- QString::startsWith
unfoldable pub is_prefix : Text → Text → Bool
is_prefix [] t = true
is_prefix (c ∷ s) [] = false
is_prefix (c ∷ s) (a ∷ t) = c == a && is_prefix s t

abbrev pub also : Text → Option (List Text × List Text) → Option (List Text × List Text)
also line none = none
also line (some (texts, rest)) = some (line ∷ texts, rest)

-- The lines of a reply of several lines behind the first, and what arrives behind it; `none` is a
-- timeout.
unfoldable pub read_further : Text → List Text → Option (List Text × List Text)
read_further terminator [] = none
read_further terminator (line ∷ lines) =
    let further = read_further terminator lines in
    if is_prefix terminator line
    then some (drop (length terminator) line ∷ [], lines)
    else also line further

abbrev pub reply_of : ℤ → Text → Option (List Text × List Text) → FtpReply × List Text
reply_of code first none = (no_reply, [])
reply_of code first (some (texts, rest)) =
    (record { code = code; text = join (10 ∷ []) (first ∷ texts) }, rest)

abbrev pub is_dash : Option ℕ → Bool
is_dash none = false
is_dash (some c) = c == b'-'

-- a first line with a code
unfoldable pub read_coded : ℤ → Text → List Text → FtpReply × List Text
unfolding show_ℤ read_further is_prefix join
read_coded code line lines =
    if is_dash (get_elem? line 3)
    then reply_of code (drop 4 line) (read_further (show_ℤ code ++ b' ' ∷ []) lines)
    else (record { code = code; text = drop 4 line }, lines)

module _ (q : Strings) where
  -- The reply, and the lines that are left.
  unfoldable pub read_reply : List Text → FtpReply × List Text
  unfolding read_coded
  read_reply [] = (no_reply, [])
  read_reply (line ∷ lines) =
      if ltb (length line) 4 then (no_reply, lines) else (elim (q.to_int (take 3 line)) [
        | none ↦ (no_reply, lines)
        | some code ↦ read_coded code line lines
      ])
