-- ===== src/Queue/Claims/Moves.antt =====
-- The items of the moves that are under way (m_pendingMoveItemId): they are found under their ids
-- and stay moves, whatever becomes of other items.
use zephyrftp.Base.{
  ℕ, suc, ◌<◌, ◌≡◌, ap, ◌∙◌, true, List, [], ◌∷◌, ◌++◌, some, inl, inr, arith, ◌==◌, ==_iff,
  Bool-cases, get_elem?, set, All, get_elem?-set_self, get_elem?-set_ne, get_elem?-append_old,
}
use zephyrftp.Base.Maps.{lookup, insert, erase, lookup-insert}
use zephyrftp.Queue.Item.{TransferItem, is_move}

module _ (index : List (ℕ × ℕ)) (items : List TransferItem) where
  abbrev pub MoveAt : ℕ → Type 0
  MoveAt id =
      (i : ℕ) × (item : TransferItem) × (lookup id index ≡ some i)
      × (get_elem? items i ≡ some item)
      × (is_move item.direction ≡ true)

-- A pending request, with an id below the next one, of an item that is a move.
abbrev pub Moving : List (ℕ × ℕ) → ℕ → List TransferItem → ℕ × ℕ → Type 0
Moving index next items e = (e.1 < next) × MoveAt index items e.1

MoveAt-set :
    (index : List (ℕ × ℕ)) (items : List TransferItem) (i : ℕ) (item item' : TransferItem)
    → get_elem? items i ≡ some item
    → item'.direction ≡ item.direction
    → (id : ℕ) → MoveAt index items id
    → MoveAt index (set items i item') id
MoveAt-set index items i item item' e d id (j, it, l, at, m) = elim (Bool-cases (j == i)) [
  | inl same ↦
      let q : j ≡ i = (==_iff j i).0 same in
      (
        j,
        item',
        l,
        rw q (get_elem?-set_self items i item item' e),
        ground (arith, ap (λ (k : ℕ). get_elem? items k) q),
      )
  | inr other ↦ (j, it, l, get_elem?-set_ne items i j item' (ground arith) ∙ at, m)
]

pub Moving-set :
    (index : List (ℕ × ℕ)) (next : ℕ) (items : List TransferItem) (i : ℕ)
    (item item' : TransferItem)
    → get_elem? items i ≡ some item
    → item'.direction ≡ item.direction
    → (es : List (ℕ × ℕ)) → All (Moving index next items) es
    → All (Moving index next (set items i item')) es
Moving-set index next items i item item' e d [] h = tt
Moving-set index next items i item item' e d (r ∷ es) ((b, m), hs) = (
  (b, MoveAt-set index items i item item' e d r.1 m),
  Moving-set index next items i item item' e d es hs,
)

-- An item is appended under the next id.
pub Moving-append :
    (index : List (ℕ × ℕ)) (next n : ℕ) (items : List TransferItem) (item : TransferItem)
    (es : List (ℕ × ℕ))
    → All (Moving index next items) es
    → All (Moving (insert next n index) (suc next) (items ++ item ∷ [])) es
Moving-append index next n items item [] h = tt
Moving-append index next n items item (r ∷ es) ((b, (j, it, l, at, m)), hs) = (
  (
    omega arith,
    (
      j,
      it,
      ground (arith, lookup-insert next r.1 n index),
      get_elem?-append_old items (item ∷ []) j it at,
      m,
    ),
  ),
  Moving-append index next n items item es hs,
)

-- An id is used up, with no item.
pub Moving-more :
    (index : List (ℕ × ℕ)) (next : ℕ) (items : List TransferItem) (es : List (ℕ × ℕ))
    → All (Moving index next items) es
    → All (Moving index (suc next) items) es
Moving-more index next items [] h = tt
Moving-more index next items (r ∷ es) ((b, m), hs) =
    ((omega arith, m), Moving-more index next items es hs)

pub Moving-erase :
    (index : List (ℕ × ℕ)) (next : ℕ) (items : List TransferItem) (k : ℕ) (es : List (ℕ × ℕ))
    → All (Moving index next items) es
    → All (Moving index next items) (erase k es)
unfolding erase
Moving-erase index next items k [] h = tt
Moving-erase index next items k ((j, v) ∷ es) (m, hs) = elim (Bool-cases (k == j)) [
  | inl same ↦ rw same (Moving-erase index next items k es hs)
  | inr other ↦ rw other (m, Moving-erase index next items k es hs)
]

pub Moving-insert :
    (index : List (ℕ × ℕ)) (next : ℕ) (items : List TransferItem) (k v : ℕ) (es : List (ℕ × ℕ))
    → Moving index next items (k, v)
    → All (Moving index next items) es
    → All (Moving index next items) (insert k v es)
unfolding insert
Moving-insert index next items k v [] n h = (n, tt)
Moving-insert index next items k v ((j, w) ∷ es) n (m, hs) = elim (Bool-cases (k == j)) [
  | inl same ↦ rw same (n, hs)
  | inr other ↦ rw other (m, Moving-insert index next items k v es n hs)
]

pub Moving-lookup :
    (index : List (ℕ × ℕ)) (next : ℕ) (items : List TransferItem) (k v : ℕ) (es : List (ℕ × ℕ))
    → All (Moving index next items) es
    → lookup k es ≡ some v
    → Moving index next items (k, v)
unfolding lookup
Moving-lookup index next items k v [] h e = absurd (ground arith)
Moving-lookup index next items k v ((j, w) ∷ es) (m, hs) e = elim (Bool-cases (j == k)) [
  | inl same ↦ let q : w ≡ v = ground arith in (rw (← q) m.0, rw (← q) m.1)
  | inr other ↦ Moving-lookup index next items k v es hs (ground arith)
]
