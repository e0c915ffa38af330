-- ===== src/Ftp/Replies.antt =====
-- The replies that readReply of backends/FtpBackend.cpp reads: what a server writes for a code and a
-- text of one line or of several is read as that, and no line behind it is touched.
use zephyrftp.Base.{
  ℕ, suc, ◌≡◌, refl, ap, ◌∙◌, sym, true, false, List, [], ◌∷◌, ◌++◌, some, ltb, arith, All, length,
  take, drop, get_elem?, length-append,
}
use zephyrftp.Base.Int.{pos}
use zephyrftp.Base.Text.{Text, show_ℕ}
use zephyrftp.Base.Split.{join}
use zephyrftp.Ftp.Qt.{Strings}
use zephyrftp.Ftp.Reply.{show_ℤ, is_prefix, read_further, read_coded, read_reply}

take-length : (s t : Text) → take (length s) (s ++ t) ≡ s
take-length [] t = refl
take-length (c ∷ s) t = ap (◌∷◌ c) (take-length s t)

drop-length : (s t : Text) → drop (length s) (s ++ t) ≡ t
drop-length [] t = refl
drop-length (c ∷ s) t = drop-length s t

get_elem?-length : (s t : Text) (c : ℕ) → get_elem? (s ++ c ∷ t) (length s) ≡ some c
get_elem?-length [] t c = refl
get_elem?-length (a ∷ s) t c = get_elem?-length s t c

drop_behind : (s t : Text) (c : ℕ) → drop (suc (length s)) (s ++ c ∷ t) ≡ t
drop_behind [] t c = refl
drop_behind (a ∷ s) t c = drop_behind s t c

is_prefix_self : (s t : Text) → is_prefix s (s ++ t) ≡ true
unfolding is_prefix
is_prefix_self [] t = refl
is_prefix_self (c ∷ s) t = ground (arith, is_prefix_self s t)

-- The lines of a text end at the first that begins with the terminator.
read_further_lem :
    (terminator last : Text) (middle rest : List Text)
    → All (λ line. is_prefix terminator line ≡ false) middle
    → read_further terminator (middle ++ (terminator ++ last) ∷ rest)
      ≡ some (middle ++ last ∷ [], rest)
unfolding read_further
read_further_lem terminator last [] rest h =
    rw (is_prefix_self terminator last, drop-length terminator last) refl
read_further_lem terminator last (line ∷ middle) rest h =
    rw (h.0, read_further_lem terminator last middle rest h.1) refl

-- A code of three digits.
pub record IsCode (q : Strings) (code : ℕ) : Type 0 where
  pub three : length (show_ℕ code) ≡ 3
  pub reads : q.to_int (show_ℕ code) ≡ some (pos code)

module _ (q : Strings) (code : ℕ) (c : IsCode q code) where
  head_three : (mark : ℕ) (text : Text) → take 3 (show_ℕ code ++ mark ∷ text) ≡ show_ℕ code
  head_three mark text =
      ap (λ k. take k (show_ℕ code ++ mark ∷ text)) (sym c.three)
      ∙ take-length (show_ℕ code) (mark ∷ text)

  behind_four : (mark : ℕ) (text : Text) → drop 4 (show_ℕ code ++ mark ∷ text) ≡ text
  behind_four mark text =
      ap (λ k. drop (suc k) (show_ℕ code ++ mark ∷ text)) (sym c.three)
      ∙ drop_behind (show_ℕ code) text mark

  at_three : (mark : ℕ) (text : Text) → get_elem? (show_ℕ code ++ mark ∷ text) 3 ≡ some mark
  at_three mark text =
      ap (get_elem? (show_ℕ code ++ mark ∷ text)) (sym c.three)
      ∙ get_elem?-length (show_ℕ code) text mark

  long : (mark : ℕ) (text : Text) → ltb (length (show_ℕ code ++ mark ∷ text)) 4 ≡ false
  long mark text = ground (arith, length-append (show_ℕ code) (mark ∷ text), c.three)

  read_reply_first :
      (mark : ℕ) (text : Text) (lines : List Text)
      → read_reply q ((show_ℕ code ++ mark ∷ text) ∷ lines)
        ≡ read_coded (pos code) (show_ℕ code ++ mark ∷ text) lines
  unfolding read_reply
  read_reply_first mark text lines =
      rw (long mark text, head_three mark text, c.reads, read_reply) refl

  read_coded_single :
      (text : Text) (rest : List Text)
      → read_coded (pos code) (show_ℕ code ++ b' ' ∷ text) rest
        ≡ (record { code = pos code; text = text }, rest)
  unfolding read_coded
  read_coded_single text rest = rw (at_three b' ' text, behind_four b' ' text) refl

  read_coded_multiple :
      (first last : Text) (middle rest : List Text)
      → All (λ line. is_prefix (show_ℕ code ++ b' ' ∷ []) line ≡ false) middle
      → read_coded
          (pos code)
          (show_ℕ code ++ b'-' ∷ first)
          (middle ++ ((show_ℕ code ++ b' ' ∷ []) ++ last) ∷ rest)
        ≡ (record { code = pos code; text = join (10 ∷ []) (first ∷ (middle ++ last ∷ [])) }, rest)
  unfolding read_coded show_ℤ
  read_coded_multiple first last middle rest h =
      rw
        (
          at_three b'-' first,
          behind_four b'-' first,
          read_further_lem (show_ℕ code ++ b' ' ∷ []) last middle rest h,
        )
        refl

  -- A reply of one line, and one of several whose lines between do not begin with the code and a
  -- space, is read as its code and its text, and what arrives behind it is left.
  pub read_reply-written :
      (first last : Text) (middle rest : List Text)
      → All (λ line. is_prefix (show_ℕ code ++ b' ' ∷ []) line ≡ false) middle
      → (read_reply q ((show_ℕ code ++ b' ' ∷ first) ∷ rest)
          ≡ (record { code = pos code; text = first }, rest))
        × (read_reply q (
              (show_ℕ code ++ b'-' ∷ first)
              ∷ (middle ++ ((show_ℕ code ++ b' ' ∷ []) ++ last) ∷ rest))
            ≡ (
              record { code = pos code; text = join (10 ∷ []) (first ∷ (middle ++ last ∷ [])) },
              rest,
            ))
  read_reply-written first last middle rest h = (
    read_reply_first b' ' first rest ∙ read_coded_single first rest,
    read_reply_first b'-' first (middle ++ ((show_ℕ code ++ b' ' ∷ []) ++ last) ∷ rest)
        ∙ read_coded_multiple first last middle rest h,
  )
