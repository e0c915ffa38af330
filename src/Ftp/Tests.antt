-- ===== src/Ftp/Tests.antt =====
-- Replies of a server, with conversions that read digits and trim nothing.
use zephyrftp.Base.{
  ℕ, ◌+◌, ◌*◌, ◌^◌, ◌/◌, ◌%◌, ◌≡◌, refl, ap, ◌∙◌, List, [], ◌∷◌, ◌++◌, Option, none, some, arith,
  ltb, if◌then◌else◌, lt→ltb, ◌==◌, true, false,
}
use zephyrftp.Base.Int.{negsuc, ℤ, pos}
use zephyrftp.Base.Text.{Text, codes, show_ℕ, text_eq}
use zephyrftp.Base.Split.{join, has_char, split, before, behind}
use zephyrftp.Base.Decimal.{read_ℕ, read_ℕ-show_ℕ, has_char-show_ℕ}
use zephyrftp.Backends.Entry.{RemoteEntry}
use zephyrftp.Ftp.Mlsd.{Conversions, split_last, fact, fact_value, mlsd_entry, parse_mlsd_line}
use zephyrftp.Ftp.Listed.{
  Stamp, is_word, ReadsFacts, mlsd_line, written_entry, parse_mlsd_line-mlsd_line,
}
use zephyrftp.Ftp.Qt.{Strings, ReadsDecimals}
use zephyrftp.Ftp.Reply.{is_prefix, read_reply}
use zephyrftp.Ftp.Address.{dotted, pasv_address, address_numbers, show_all, data_port}
use zephyrftp.Ftp.Replies.{IsCode, read_reply-written}
use zephyrftp.Ftp.Addresses.{pasv_address-address_numbers, IsAddress, pasv_address-IsAddress}

abbrev int_of : Option ℕ → Option ℤ
int_of none = none
int_of (some n) = if ltb n (2 ^ 31) then some (pos n) else none

abbrev digits_only : Strings
unfolding read_ℕ
digits_only = record { to_int = λ s. int_of (read_ℕ s); trimmed = λ s. s }

digits_only-ReadsDecimals : ReadsDecimals digits_only
unfolding read_ℕ
digits_only-ReadsDecimals = record {
  to_int-show_ℕ = λ n h. ap int_of (read_ℕ-show_ℕ n) ∙ rw (lt→ltb n (2 ^ 31) h) refl;
  trimmed-show_ℕ = λ n. refl;
}

-- 192.168.1.5, port 51215
abbrev server_address : ℕ
server_address = 192 * 2 ^ 24 + 168 * 2 ^ 16 + 1 * 2 ^ 8 + 5

abbrev entering : Text
entering = codes "Entering Passive Mode "

pasv_address-address_numbers_example :
    pasv_address digits_only (
      entering
      ++ b'('
        ∷ (join (b',' ∷ []) (show_all (address_numbers server_address 51215)) ++ b')' ∷ codes "."))
    ≡ some (
      dotted
          (server_address / 2 ^ 24 % 256)
          (server_address / 2 ^ 16 % 256)
          (server_address / 2 ^ 8 % 256)
          (server_address % 256),
      51215,
    )
unfolding has_char
pasv_address-address_numbers_example =
    pasv_address-address_numbers digits_only digits_only-ReadsDecimals server_address 51215 entering
      (codes ".") (omega arith) refl

pasv_address-IsAddress_example : IsAddress (codes "10.0.0.7", 5125)
unfolding pasv_address dotted show_ℕ read_ℕ data_port
pasv_address-IsAddress_example =
    pasv_address-IsAddress digits_only (codes "ok (10,0,0,7,20,5)") (codes "10.0.0.7", 5125) refl

abbrev welcome : List Text
welcome = codes " 220 is not the end" ∷ (codes "220-nor this" ∷ [])

two_twenty : IsCode digits_only 220
unfolding show_ℕ read_ℕ
two_twenty = record { three = refl; reads = refl }

read_reply-written_example :
    (read_reply digits_only ((show_ℕ 220 ++ b' ' ∷ codes "Hello") ∷ (codes "230 in" ∷ []))
      ≡ (record { code = pos 220; text = codes "Hello" }, codes "230 in" ∷ []))
    × (read_reply digits_only (
          (show_ℕ 220 ++ b'-' ∷ codes "Hello")
          ∷ (welcome ++ ((show_ℕ 220 ++ b' ' ∷ []) ++ codes "Ready") ∷ (codes "230 in" ∷ [])))
        ≡ (
          record {
            code = pos 220;
            text = join (10 ∷ []) (codes "Hello" ∷ (welcome ++ codes "Ready" ∷ []));
          },
          codes "230 in" ∷ [],
        ))
unfolding is_prefix show_ℕ
read_reply-written_example =
    read_reply-written digits_only 220 two_twenty (codes "Hello") (codes "Ready") welcome
      (codes "230 in" ∷ []) (refl, (refl, tt))

-- One space in front is what there is to trim.
unfoldable without_space : Text → Text
without_space [] = []
without_space (c ∷ t) = if c == b' ' then t else c ∷ t

abbrev size_of : Option ℕ → ℕ
size_of none = 0
size_of (some n) = n

abbrev natural : ℤ → ℕ
natural (pos n) = n
natural (negsuc n) = 0

-- A calendar of months of 31 days, in local time that is UTC.
abbrev seconds_in : ℤ → ℤ → ℤ → ℤ → ℤ → ℤ → ℕ
seconds_in year month day hour minute second =
    ((((natural year * 12 + natural month) * 31 + natural day) * 24 + natural hour) * 60
        + natural minute)
      * 60
    + natural second

-- 2025-01-02 03:04:05
abbrev early : Stamp
early = record {
  century = (b'2', b'0');
  year = (b'2', b'5');
  month = (b'0', b'1');
  day = (b'0', b'2');
  hour = (b'0', b'3');
  minute = (b'0', b'4');
  second = (b'0', b'5');
  fraction = codes ".5";
}

abbrev plain_facts : Conversions
unfolding without_space read_ℕ
plain_facts = record {
  trimmed = without_space;
  to_lower = λ t. t;
  to_long_long = λ t. size_of (read_ℕ t);
  to_int = λ t. pos (size_of (read_ℕ t));
  utc_to_local =
      λ year month day hour minute second. some (seconds_in year month day hour minute second);
}

-- A text whose first character is no space has none to trim.
without_space_free : (t : Text) → has_char b' ' t ≡ false → without_space t ≡ t
unfolding without_space has_char
without_space_free [] h = refl
without_space_free (c ∷ t) h = ground arith

word_has_no_space : (w : Text) → is_word w ≡ true → has_char b' ' w ≡ false
unfolding has_char
word_has_no_space [] h = refl
word_has_no_space (c ∷ w) h = ground (arith, word_has_no_space w)

plain_facts-ReadsFacts : ReadsFacts plain_facts
unfolding without_space read_ℕ
plain_facts-ReadsFacts = record {
  trimmed_word = λ w h. without_space_free w (word_has_no_space w h);
  to_lower_word = λ w h. refl;
  trimmed-show_ℕ = λ n. without_space_free (show_ℕ n) (has_char-show_ℕ n b' ' refl);
  to_long_long-show_ℕ = λ n h. ap size_of (read_ℕ-show_ℕ n);
}

parse_mlsd_line-mlsd_line_example :
    parse_mlsd_line plain_facts
      (mlsd_line false 1200 (codes "20250102030405.5") (codes "my notes.txt"))
    ≡ some (written_entry plain_facts false 1200 early (codes "my notes.txt"))
unfolding has_char without_space read_ℕ
parse_mlsd_line-mlsd_line_example =
    parse_mlsd_line-mlsd_line plain_facts plain_facts-ReadsFacts false 1200 early
      (codes "my notes.txt") refl refl (omega arith) refl refl refl

abbrev map_name : Option RemoteEntry → Option Text
map_name none = none
map_name (some e) = some e.name

-- Of a name with a semicolon only what stands behind it is left.
semicolon_in_name :
    map_name (parse_mlsd_line plain_facts (codes "type=file;size=1; a;b")) ≡ some (codes "b")
unfolding parse_mlsd_line split_last split mlsd_entry fact_value fact before behind text_eq
    without_space read_ℕ
semicolon_in_name = refl
