-- ===== src/Ftp/Mlsd.antt =====
-- parseMlsdLine of backends/FtpBackend.cpp. The entry of a line that is refused is `none`. What
-- depends on Unicode or on the calendar is a parameter.
use zephyrftp.Base.{
  ℕ, take, drop, false, List, [], ◌∷◌, Option, none, some, length, ltb, ◌==◌, ◌||◌, if◌then◌else◌,
}
use zephyrftp.Base.Int.{ℤ}
use zephyrftp.Base.Text.{Text, codes, text_eq, is_empty}
use zephyrftp.Base.Split.{split, before, behind}
use zephyrftp.Backends.Entry.{RemoteEntry}

-- QString::trimmed, toLower, toLongLong of a size and toInt, which is 0 for what is no number; and
-- QDateTime(QDate(year, month, day), QTime(hour, minute, second), Qt::UTC).toLocalTime(), `none`
-- where it is not valid.
pub record Conversions : Type 0 where
  pub trimmed : Text → Text
  pub to_lower : Text → Text
  pub to_long_long : Text → ℕ
  pub to_int : Text → ℤ
  pub utc_to_local : ℤ → ℤ → ℤ → ℤ → ℤ → ℤ → Option ℕ

-- QString::mid
abbrev pub mid : ℕ → ℕ → Text → Text
mid position n t = take n (drop position t)

-- What stands before the last c, and behind it.
unfoldable pub split_last : ℕ → Text → Option (Text × Text)
split_last c [] = none
split_last c (a ∷ s) = elim (split_last c s) [
  | some parts ↦ some (a ∷ parts.0, parts.1)
  | none ↦ if a == c then some ([], s) else none
]

abbrev pub or_empty : Option Text → Text
or_empty none = []
or_empty (some t) = t

module _ (q : Conversions) where
  -- the value of a token that has the key
  unfoldable pub fact : Text → Text → Option Text
  unfolding before behind text_eq
  fact key token = elim (before b'=' token) [
    | none ↦ none
    | some k ↦
        if text_eq (q.to_lower (q.trimmed k)) key
        then some (q.trimmed (or_empty (behind b'=' token)))
        else none
  ]

  -- facts.value: of two tokens with the same key the later one was inserted last
  unfoldable pub fact_value : Text → List Text → Option Text
  unfolding fact
  fact_value key [] = none
  fact_value key (token ∷ tokens) = elim (fact_value key tokens) [
    | some later ↦ some later
    | none ↦ fact key token
  ]

  unfoldable pub mlsd_entry : Text → List Text → Option RemoteEntry
  unfolding fact_value
  mlsd_entry name tokens =
      let type = q.to_lower (or_empty (fact_value (codes "type") tokens)) in
      let modify = or_empty (fact_value (codes "modify") tokens) in
      if text_eq type (codes "cdir") || text_eq type (codes "pdir")
      then none
      else some (record {
        name = name;
        is_dir = text_eq type (codes "dir");
        is_symlink = false;
        size = q.to_long_long (or_empty (fact_value (codes "size") tokens));
        modified =
            (if ltb (length modify) 14
              then none
              else q.utc_to_local (q.to_int (mid 0 4 modify)) (q.to_int (mid 4 2 modify))
                  (q.to_int (mid 6 2 modify)) (q.to_int (mid 8 2 modify))
                  (q.to_int (mid 10 2 modify)) (q.to_int (mid 12 2 modify)));
        permissions = codes "-";
      })

  -- parseMlsdLine
  unfoldable pub parse_mlsd_line : Text → Option RemoteEntry
  unfolding split_last mlsd_entry split
  parse_mlsd_line line = elim (split_last b';' line) [
    | none ↦ none
    | some parts ↦
        let name = q.trimmed parts.1 in
        if is_empty name then none else mlsd_entry name (split b';' parts.0)
  ]
