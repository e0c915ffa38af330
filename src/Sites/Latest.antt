-- ===== src/Sites/Latest.antt =====
-- The servers that were connected to last, and what a bounded list of them needs to keep:
-- recordConnection in backends/ConnectionHistory.cpp.
use zephyrftp.Base.{
  ℕ, zero, suc, ◌≡◌, refl, ap, sym, ◌∙◌, not, keep, Bool, true, false, ◌||◌, List, [], ◌∷◌, arith,
  take, Bool-cases, if-elim, inl, inr,
}
use zephyrftp.Base.Text.{text_eq_iff}
use zephyrftp.Backends.Protocol.{protocol_eq_sound}
use zephyrftp.Sites.History.{ConnectionHistoryEntry, same_server, without_server}

-- The entries of other servers, in order.
abbrev pub others :
    ConnectionHistoryEntry → List ConnectionHistoryEntry → List ConnectionHistoryEntry
unfolding same_server
others e es = keep (λ x. not (same_server x e)) es

-- What a bounded history is measured by: every connection of the past, the newest first, without
-- the older ones of each server.
unfoldable pub latest : List ConnectionHistoryEntry → List ConnectionHistoryEntry
latest [] = []
latest (e ∷ es) = e ∷ others e (latest es)

pub without_server-others :
    (e : ConnectionHistoryEntry) (ys : List ConnectionHistoryEntry)
    → without_server e ys ≡ others e ys
unfolding without_server
without_server-others e [] = refl
without_server-others e (y ∷ ys) = ground (arith, without_server-others e ys)

has_server : ConnectionHistoryEntry → List ConnectionHistoryEntry → Bool
has_server e [] = false
has_server e (x ∷ xs) = same_server x e || has_server e xs

Distinct : List ConnectionHistoryEntry → Type 0
Distinct [] = Unit
Distinct (x ∷ xs) = (has_server x xs ≡ false) × Distinct xs

-- Entries of one server are of the same server as the same entries.
same_server_right :
    (x e y : ConnectionHistoryEntry) → same_server x e ≡ true → same_server y e ≡ same_server y x
unfolding same_server
same_server_right x e y h = ground (
  arith,
  protocol_eq_sound x.protocol e.protocol,
  text_eq_iff x.host e.host,
  text_eq_iff x.username e.username,
)

has_server_same :
    (x e : ConnectionHistoryEntry) (ys : List ConnectionHistoryEntry)
    → same_server x e ≡ true
    → has_server e ys ≡ has_server x ys
unfolding has_server
has_server_same x e [] h = refl
has_server_same x e (y ∷ ys) h = rw (same_server_right x e y h, has_server_same x e ys h) refl

without_server_absent :
    (e : ConnectionHistoryEntry) (ys : List ConnectionHistoryEntry)
    → has_server e ys ≡ false
    → without_server e ys ≡ ys
unfolding has_server without_server
without_server_absent e [] h = refl
without_server_absent e (y ∷ ys) h = ground (arith, without_server_absent e ys)

has_server-without :
    (e : ConnectionHistoryEntry) (ys : List ConnectionHistoryEntry)
    → has_server e (without_server e ys) ≡ false
unfolding has_server without_server
has_server-without e [] = refl
has_server-without e (y ∷ ys) = ground (arith, has_server-without e ys)

has_server-without_other :
    (x e : ConnectionHistoryEntry) (ys : List ConnectionHistoryEntry)
    → has_server x ys ≡ false
    → has_server x (without_server e ys) ≡ false
unfolding has_server without_server
has_server-without_other x e [] h = refl
has_server-without_other x e (y ∷ ys) h = ground (arith, has_server-without_other x e ys)

has_server-take :
    (e : ConnectionHistoryEntry) (m : ℕ) (ys : List ConnectionHistoryEntry)
    → has_server e ys ≡ false
    → has_server e (take m ys) ≡ false
unfolding has_server
has_server-take e zero [] h = refl
has_server-take e (suc m) [] h = refl
has_server-take e zero (y ∷ ys) h = refl
has_server-take e (suc m) (y ∷ ys) h = ground (arith, has_server-take e m ys)

without-Distinct :
    (e : ConnectionHistoryEntry) (ys : List ConnectionHistoryEntry)
    → Distinct ys
    → Distinct (without_server e ys)
unfolding Distinct without_server
without-Distinct e [] h = tt
without-Distinct e (y ∷ ys) h =
    if-elim Distinct (same_server y e) (without_server e ys) (y ∷ without_server e ys)
      (λ _. without-Distinct e ys h.1)
      (λ _. (has_server-without_other y e ys h.0, without-Distinct e ys h.1))

latest-Distinct : (es : List ConnectionHistoryEntry) → Distinct (latest es)
unfolding Distinct latest
latest-Distinct [] = tt
latest-Distinct (e ∷ es) =
    rw (sym (without_server-others e (latest es)))
      (has_server-without e (latest es), without-Distinct e (latest es) (latest-Distinct es))

take-take : (m : ℕ) (ys : List ConnectionHistoryEntry) → take m (take m ys) ≡ take m ys
take-take zero ys = refl
take-take (suc m) [] = refl
take-take (suc m) (y ∷ ys) = ap (◌∷◌ y) (take-take m ys)

-- Of distinct servers at most one is removed, so one entry beyond the bound is enough.
take-without :
    (m : ℕ) (e : ConnectionHistoryEntry) (ys : List ConnectionHistoryEntry)
    → Distinct ys
    → take m (without_server e (take (suc m) ys)) ≡ take m (without_server e ys)
unfolding Distinct without_server
take-without m e [] h = refl
take-without m e (y ∷ ys) h = elim (Bool-cases (same_server y e)) [
  | inl same ↦
      let absent : has_server e ys ≡ false = has_server_same y e ys same ∙ h.0 in
      rw
        (
          same,
          without_server_absent e (take m ys) (has_server-take e m ys absent),
          without_server_absent e ys absent,
          take-take m ys,
        )
        refl
  | inr other ↦ rw other (further m (λ k. take-without k e ys h.1))
]
  where
    further :
        (m : ℕ)
        → ((k : ℕ) → take k (without_server e (take (suc k) ys)) ≡ take k (without_server e ys))
        → take m (y ∷ without_server e (take m ys)) ≡ take m (y ∷ without_server e ys)
    further zero ih = refl
    further (suc k) ih = ap (◌∷◌ y) (ih k)

-- A history that kept the latest before a connection keeps the latest after it.
pub recorded-latest :
    (m : ℕ) (e : ConnectionHistoryEntry) (es : List ConnectionHistoryEntry)
    → take m (e ∷ without_server e (take m (latest es))) ≡ take m (latest (e ∷ es))
unfolding latest
recorded-latest zero e es = refl
recorded-latest (suc k) e es = ap (◌∷◌ e) (
    take-without k e (latest es) (latest-Distinct es)
    ∙ ap (take k) (without_server-others e (latest es)))
