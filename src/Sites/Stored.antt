-- ===== src/Sites/Stored.antt =====
-- What the history of backends/ConnectionHistory.cpp keeps of an entry over a restart.
use zephyrftp.Base.{ℕ, ◌<◌, ◌≡◌, refl, ap, ◌∙◌, false, List, [], ◌∷◌, map, some, All}
use zephyrftp.Base.Text.{text_eq, is_empty}
use zephyrftp.Json.{value, to_text, to_number, to_bool, to_object, to_list-of_list}
use zephyrftp.Backends.Protocol.{protocol_from_key-to_key}
use zephyrftp.Sites.Requests.{
  FtpsMode, plain, explicit, implicit, SftpAuthMethod, password, public_key,
}
use zephyrftp.Sites.History.{
  ConnectionHistoryEntry, auth_key, auth_from, ftps_key, ftps_from, entry_to_json, entry_from_json,
  load_entries, load_history, save_history,
}

-- What becomes of the mode of an entry that is written and read.
abbrev pub kept_mode : FtpsMode → FtpsMode
kept_mode explicit = explicit
kept_mode _ = plain

pub auth_round_trip : (m : SftpAuthMethod) → auth_from (auth_key m) ≡ m
unfolding text_eq
auth_round_trip password = refl
auth_round_trip public_key = refl

mode_round_trip : (m : FtpsMode) → ftps_from (ftps_key m) ≡ kept_mode m
unfolding text_eq
mode_round_trip plain = refl
mode_round_trip explicit = refl
mode_round_trip implicit = refl

abbrev pub as_kept : ConnectionHistoryEntry → ConnectionHistoryEntry
as_kept e = record e { ftps_mode = kept_mode e.ftps_mode }

abbrev pub IsKept : ConnectionHistoryEntry → Type 0
IsKept e = (is_empty e.host ≡ false) × (e.last_connected_at_ms < 9007199254740992)

module _ (double : ℕ → ℕ) (exact : (n : ℕ) → n < 9007199254740992 → double n ≡ n) where
  entry_round_trip :
      (e : ConnectionHistoryEntry)
      → IsKept e
      → entry_from_json double (to_object (entry_to_json e)) ≡ as_kept e
  unfolding entry_from_json entry_to_json to_object value text_eq to_text to_number to_bool
  entry_round_trip e h =
      rw
        (
          protocol_from_key-to_key e.protocol,
          auth_round_trip e.auth_method,
          mode_round_trip e.ftps_mode,
          exact e.last_connected_at_ms h.1,
        )
        refl

  entries_round_trip :
      (es : List ConnectionHistoryEntry)
      → All IsKept es
      → load_entries double (map entry_to_json es) ≡ map as_kept es
  unfolding load_entries entry_to_json to_object
  entries_round_trip [] h = refl
  entries_round_trip (e ∷ es) (h, hs) =
      rw (entry_round_trip e h, entries_round_trip es hs, h.0) refl

  -- The history reads back the entries that it wrote, in order, for entries with a host and times
  -- that a double represents exactly; but a mode of FTPS that is implicit comes back as none at all.
  pub load_history-save_history :
      (es : List ConnectionHistoryEntry)
      → All IsKept es
      → load_history double (some (save_history es)) ≡ map as_kept es
  unfolding load_history save_history
  load_history-save_history es h =
      ap (load_entries double) (to_list-of_list (map entry_to_json es)) ∙ entries_round_trip es h
