-- ===== src/Sites/Recent.antt =====
-- The order of recordConnection in backends/ConnectionHistory.cpp: the servers that were connected to
-- last, each once.
use zephyrftp.Base.{
  ℕ, zero, suc, ◌≡◌, refl, ap, sym, ◌∙◌, ◌<◌, ◌↔◌, map, All, Option, none, some, ==_iff, true, List,
  [], ◌∷◌, arith, take, if-elim,
}
use zephyrftp.Base.Text.{text_eq_iff}
use zephyrftp.Json.{JsonValue}
use zephyrftp.Sites.Requests.{FtpsMode, plain, explicit, implicit}
use zephyrftp.Backends.Protocol.{protocol_eq_sound, protocol_eq_refl}
use zephyrftp.Sites.History.{
  ConnectionHistoryEntry, same_server, without_server, recorded, record_connection, load_history,
}
use zephyrftp.Sites.Stored.{kept_mode, as_kept, IsKept, load_history-save_history}
use zephyrftp.Sites.Latest.{latest, without_server-others, recorded-latest}

-- The document after these connections, the newest first; there is none before the first.
unfoldable pub record_all : (ℕ → ℕ) → ℕ → List ConnectionHistoryEntry → Option JsonValue
unfolding record_connection
record_all double max_entries [] = none
record_all double max_entries (e ∷ es) =
    some (record_connection double e max_entries (record_all double max_entries es))

-- One server: protocol, host, port and user.
abbrev pub SameServer : ConnectionHistoryEntry → ConnectionHistoryEntry → Type 0
SameServer a b =
    (a.protocol ≡ b.protocol) × (a.host ≡ b.host) × (a.port ≡ b.port) × (a.username ≡ b.username)

same_server_iff : (a b : ConnectionHistoryEntry) → (same_server a b ≡ true) ↔ SameServer a b
unfolding same_server
same_server_iff a b = (
  (λ h. (
    protocol_eq_sound a.protocol b.protocol (ground arith),
    (text_eq_iff a.host b.host).0 (ground arith),
    (==_iff a.port b.port).0 (ground arith),
    (text_eq_iff a.username b.username).0 (ground arith),
  )),
  (λ h.
      rw
        (
          h.0,
          protocol_eq_refl b.protocol,
          (text_eq_iff a.host b.host).1 h.1,
          (==_iff a.port b.port).1 h.2,
          (text_eq_iff a.username b.username).1 h.3,
        )
        refl),
)

without_server-as_kept :
    (e : ConnectionHistoryEntry) (ys : List ConnectionHistoryEntry)
    → without_server e (map as_kept ys) ≡ map as_kept (without_server e ys)
unfolding without_server same_server
without_server-as_kept e [] = refl
without_server-as_kept e (y ∷ ys) = ground (arith, without_server-as_kept e ys)

as_kept_twice : (e : ConnectionHistoryEntry) → as_kept (as_kept e) ≡ as_kept e
as_kept_twice e = ap (λ m. record e { ftps_mode = m }) (twice e.ftps_mode)
  where
    twice : (m : FtpsMode) → kept_mode (kept_mode m) ≡ kept_mode m
    twice plain = refl
    twice explicit = refl
    twice implicit = refl

kept_twice : (es : List ConnectionHistoryEntry) → map as_kept (map as_kept es) ≡ map as_kept es
kept_twice [] = refl
kept_twice (e ∷ es) = rw (as_kept_twice e, kept_twice es) refl

take-map :
    (m : ℕ) (es : List ConnectionHistoryEntry) → map as_kept (take m es) ≡ take m (map as_kept es)
take-map zero es = refl
take-map (suc m) [] = refl
take-map (suc m) (e ∷ es) = ap (◌∷◌ (as_kept e)) (take-map m es)

take-IsKept : (m : ℕ) (es : List ConnectionHistoryEntry) → All IsKept es → All IsKept (take m es)
take-IsKept zero es h = tt
take-IsKept (suc m) [] h = tt
take-IsKept (suc m) (e ∷ es) h = (h.0, take-IsKept m es h.1)

map-IsKept : (es : List ConnectionHistoryEntry) → All IsKept es → All IsKept (map as_kept es)
map-IsKept [] h = tt
map-IsKept (e ∷ es) h = (h.0, map-IsKept es h.1)

without_server-IsKept :
    (e : ConnectionHistoryEntry) (es : List ConnectionHistoryEntry)
    → All IsKept es
    → All IsKept (without_server e es)
unfolding without_server
without_server-IsKept e [] h = tt
without_server-IsKept e (x ∷ es) h =
    if-elim (All IsKept) (same_server x e) _ _ (λ _. without_server-IsKept e es h.1)
      (λ _. (h.0, without_server-IsKept e es h.1))

latest-IsKept : (es : List ConnectionHistoryEntry) → All IsKept es → All IsKept (latest es)
unfolding latest
latest-IsKept [] h = tt
latest-IsKept (e ∷ es) h = (
  h.0,
  rw (sym (without_server-others e (latest es)))
      (without_server-IsKept e (latest es) (latest-IsKept es h.1)),
)

-- What is saved next to the kept entries reads back as the kept ones.
recorded-as_kept :
    (m : ℕ) (e : ConnectionHistoryEntry) (ys : List ConnectionHistoryEntry)
    → map as_kept (recorded e m (map as_kept ys)) ≡ map as_kept (take m (e ∷ without_server e ys))
unfolding recorded
recorded-as_kept m e ys =
    take-map m (e ∷ without_server e (map as_kept ys))
    ∙ (ap (λ zs. take m (as_kept e ∷ zs))
          (ap (map as_kept) (without_server-as_kept e ys) ∙ kept_twice (without_server e ys))
        ∙ sym (take-map m (e ∷ without_server e ys)))

module _ (double : ℕ → ℕ) (exact : (n : ℕ) → n < 9007199254740992 → double n ≡ n) where
  load_history-record_all :
      (m : ℕ) (es : List ConnectionHistoryEntry)
      → All IsKept es
      → load_history double (record_all double m es) ≡ map as_kept (take m (latest es))
  unfolding record_all latest
  load_history-record_all zero [] h = unfold load_history in refl
  load_history-record_all (suc m) [] h = unfold load_history in refl
  load_history-record_all m (e ∷ es) h =
      let ys = take m (latest es) in
      unfold record_connection in
      rw (load_history-record_all m es h.1) (
        load_history-save_history double exact (recorded e m (map as_kept ys)) (
          unfold recorded in
          take-IsKept m (e ∷ without_server e (map as_kept ys)) (
            h.0,
            without_server-IsKept e (map as_kept ys)
                (map-IsKept ys (take-IsKept m (latest es) (latest-IsKept es h.1))),
          ))
        ∙ (recorded-as_kept m e ys ∙ ap (map as_kept) (recorded-latest m e es)))

  -- A bounded history forgets nothing that it should hold, although each connection loads it and
  -- saves it again: after any connections, to servers with a host and at times that a double
  -- represents exactly, it loads as the servers that were connected to last, each once with its last
  -- entry, the newest first, up to the bound, but with an implicit mode of FTPS as none; and the
  -- servers it tells apart are those that differ in protocol, host, port or user.
  pub record_all-latest :
      (max_entries : ℕ) (es : List ConnectionHistoryEntry) (a b : ConnectionHistoryEntry)
      → All IsKept es
      → (load_history double (record_all double max_entries es)
          ≡ map as_kept (take max_entries (latest es)))
        × ((same_server a b ≡ true) ↔ SameServer a b)
  record_all-latest m es a b h = (load_history-record_all m es h, same_server_iff a b)
