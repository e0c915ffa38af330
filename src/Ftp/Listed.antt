-- ===== src/Ftp/Listed.antt =====
-- A line of MLSD that a server writes is read by parseMlsdLine of backends/FtpBackend.cpp.
use zephyrftp.Base.{
  ℕ, ◌<◌, ◌^◌, ◌≡◌, refl, Bool, true, false, not, List, [], ◌∷◌, ◌++◌, Option, none, some, length,
  ltb, ◌||◌, exists, if◌then◌else◌, arith,
}
use zephyrftp.Base.Text.{Text, codes, text_eq, is_empty, show_ℕ}
use zephyrftp.Base.Split.{before-append, behind-append, has_char, join, split-join, Free}
use zephyrftp.Base.Decimal.{has_char-show_ℕ}
use zephyrftp.Backends.Entry.{RemoteEntry}
use zephyrftp.Ftp.Mlsd.{Conversions, split_last, fact, fact_value, mlsd_entry, parse_mlsd_line}

-- letters of the ASCII part in lower case alone
abbrev pub is_word : Text → Bool
is_word w = not (exists (λ c. ltb c b'a' || ltb b'z' c) w)

-- Words in lower case stay as they are, and a size that was written in decimal reads back.
pub record ReadsFacts (q : Conversions) : Type 0 where
  pub trimmed_word : (w : Text) → is_word w ≡ true → q.trimmed w ≡ w
  pub to_lower_word : (w : Text) → is_word w ≡ true → q.to_lower w ≡ w
  pub trimmed-show_ℕ : (n : ℕ) → q.trimmed (show_ℕ n) ≡ show_ℕ n
  pub to_long_long-show_ℕ : (n : ℕ) → n < 2 ^ 63 → q.to_long_long (show_ℕ n) ≡ n

abbrev pub kind_of : Bool → Text
kind_of true = codes "dir"
kind_of false = codes "file"

-- Two characters.
abbrev pub two : ℕ × ℕ → Text
two p = p.0 ∷ (p.1 ∷ [])

-- RFC 3659, section 2.3: YYYYMMDDHHMMSS and perhaps a fraction, in UTC
pub record Stamp : Type 0 where
  pub century : ℕ × ℕ
  pub year : ℕ × ℕ
  pub month : ℕ × ℕ
  pub day : ℕ × ℕ
  pub hour : ℕ × ℕ
  pub minute : ℕ × ℕ
  pub second : ℕ × ℕ
  pub fraction : Text

abbrev pub stamp_text : Stamp → Text
stamp_text t =
    two t.century
    ++ (two t.year
        ++ (two t.month
            ++ (two t.day ++ (two t.hour ++ (two t.minute ++ (two t.second ++ t.fraction))))))

stamp_long : (t : Stamp) → ltb (length (stamp_text t)) 14 ≡ false
stamp_long t = ground arith

abbrev pub mlsd_facts : Bool → ℕ → Text → List Text
mlsd_facts is_dir size time =
    (codes "type=" ++ kind_of is_dir)
    ∷ ((codes "size=" ++ show_ℕ size) ∷ ((codes "modify=" ++ time) ∷ []))

-- RFC 3659, section 7.2: the facts, each with its semicolon, a space, and the name
abbrev pub mlsd_line : Bool → ℕ → Text → Text → Text
mlsd_line is_dir size time name =
    join (b';' ∷ []) (mlsd_facts is_dir size time) ++ (b';' ∷ (b' ' ∷ name))

split_last-none : (c : ℕ) (s : Text) → has_char c s ≡ false → split_last c s ≡ none
unfolding split_last has_char
split_last-none c [] h = refl
split_last-none c (a ∷ s) h = ground (arith, split_last-none c s)

split_last-append :
    (c : ℕ) (s t : Text) → has_char c t ≡ false → split_last c (s ++ c ∷ t) ≡ some (s, t)
unfolding split_last
split_last-append c [] t h = rw (split_last-none c t h, split_last) ground arith
split_last-append c (a ∷ s) t h = rw (split_last-append c s t h, split_last) refl

-- the later one of two facts with the same key
abbrev later : Option Text → Option Text → Option Text
later x (some z) = some z
later x none = x

-- The entry of a line that was so written.
abbrev pub written_entry : Conversions → Bool → ℕ → Stamp → Text → RemoteEntry
written_entry q is_dir size time name = record {
  name = name;
  is_dir = is_dir;
  is_symlink = false;
  size = size;
  modified =
      q.utc_to_local (q.to_int (two time.century ++ two time.year)) (q.to_int (two time.month))
        (q.to_int (two time.day)) (q.to_int (two time.hour)) (q.to_int (two time.minute))
        (q.to_int (two time.second));
  permissions = codes "-";
}

module _ (q : Conversions) (reads : ReadsFacts q) where
  fact-written :
      (key name value : Text)
      → is_word name ≡ true
      → has_char b'=' name ≡ false
      → q.trimmed value ≡ value
      → fact q key (name ++ b'=' ∷ value) ≡ (if text_eq name key then some value else none)
  unfolding fact
  fact-written key name value word free clean =
      rw
        (
          before-append b'=' name value free,
          behind-append b'=' name value free,
          reads.trimmed_word name word,
          reads.to_lower_word name word,
          clean,
          fact,
        )
        refl

  fact_value_of_three :
      (key a b c : Text) (x y z : Option Text)
      → fact q key a ≡ x
      → fact q key b ≡ y
      → fact q key c ≡ z
      → fact_value q key (a ∷ (b ∷ (c ∷ []))) ≡ later x (later y z)
  unfolding fact_value
  fact_value_of_three key a b c x y z e f g = ground (arith, e, f, g)

  kind_trimmed : (is_dir : Bool) → q.trimmed (kind_of is_dir) ≡ kind_of is_dir
  kind_trimmed true = reads.trimmed_word (codes "dir") refl
  kind_trimmed false = reads.trimmed_word (codes "file") refl

  -- What a key finds among the facts.
  value_written :
      (is_dir : Bool) (size : ℕ) (time key : Text)
      → q.trimmed time ≡ time
      → fact_value q key (mlsd_facts is_dir size time)
        ≡ later (if text_eq (codes "type") key then some (kind_of is_dir) else none) (
            later
              (if text_eq (codes "size") key then some (show_ℕ size) else none)
              (if text_eq (codes "modify") key then some time else none))
  unfolding has_char
  value_written is_dir size time key clean =
      fact_value_of_three key (codes "type=" ++ kind_of is_dir) (codes "size=" ++ show_ℕ size)
        (codes "modify=" ++ time) _ _ _
        (fact-written key (codes "type") (kind_of is_dir) refl refl (kind_trimmed is_dir))
        (fact-written key (codes "size") (show_ℕ size) refl refl (reads.trimmed-show_ℕ size))
        (fact-written key (codes "modify") time refl refl clean)

  mlsd_entry-written :
      (is_dir : Bool) (size : ℕ) (time : Stamp) (name : Text)
      → q.trimmed (stamp_text time) ≡ stamp_text time
      → size < 2 ^ 63
      → mlsd_entry q name (mlsd_facts is_dir size (stamp_text time))
        ≡ some (written_entry q is_dir size time name)
  unfolding mlsd_entry text_eq
  mlsd_entry-written true size time name clean small =
      rw
        (
          value_written true size (stamp_text time) (codes "type") clean,
          value_written true size (stamp_text time) (codes "size") clean,
          value_written true size (stamp_text time) (codes "modify") clean,
          reads.to_lower_word (codes "dir") refl,
          reads.to_long_long-show_ℕ size small,
          stamp_long time,
        )
        refl
  mlsd_entry-written false size time name clean small =
      rw
        (
          value_written false size (stamp_text time) (codes "type") clean,
          value_written false size (stamp_text time) (codes "size") clean,
          value_written false size (stamp_text time) (codes "modify") clean,
          reads.to_lower_word (codes "file") refl,
          reads.to_long_long-show_ℕ size small,
          stamp_long time,
        )
        refl

  facts-Free :
      (is_dir : Bool) (size : ℕ) (time : Text)
      → has_char b';' time ≡ false
      → Free b';' (mlsd_facts is_dir size time)
  unfolding has_char
  facts-Free true size time h = (refl, (has_char-show_ℕ size b';' refl, (h, tt)))
  facts-Free false size time h = (refl, (has_char-show_ℕ size b';' refl, (h, tt)))

  -- A line that a server writes for a file or a directory is read as the entry with its name, kind and
  -- size, and with the time that Qt makes of the year, month, day, hour, minute and second of its
  -- modify fact, in that order and in UTC, whatever fraction follows them; where the name holds no
  -- semicolon, is not empty and has only the one space in front to trim, the fact holds no semicolon
  -- and nothing to trim, and the size fits 63 bits.
  pub parse_mlsd_line-mlsd_line :
      (is_dir : Bool) (size : ℕ) (time : Stamp) (name : Text)
      → q.trimmed (stamp_text time) ≡ stamp_text time
      → has_char b';' (stamp_text time) ≡ false
      → size < 2 ^ 63
      → has_char b';' name ≡ false
      → is_empty name ≡ false
      → q.trimmed (b' ' ∷ name) ≡ name
      → parse_mlsd_line q (mlsd_line is_dir size (stamp_text time) name)
        ≡ some (written_entry q is_dir size time name)
  unfolding parse_mlsd_line has_char
  parse_mlsd_line-mlsd_line is_dir size time name clean free small whole named trimmed =
      rw
        (
          split_last-append b';' (join (b';' ∷ []) (mlsd_facts is_dir size (stamp_text time)))
              (b' ' ∷ name) whole,
          parse_mlsd_line,
          trimmed,
          named,
          split-join b';' (codes "type=" ++ kind_of is_dir)
              ((codes "size=" ++ show_ℕ size) ∷ ((codes "modify=" ++ stamp_text time) ∷ []))
              (facts-Free is_dir size (stamp_text time) free).0
              (facts-Free is_dir size (stamp_text time) free).1,
        )
        (mlsd_entry-written is_dir size time name clean small)
