-- ===== src/Queue/Claims/Reached.antt =====
-- What holds of m_active whenever the queue of transfer/TransferManager.cpp is at rest.
use zephyrftp.Base.{
  ℕ, zero, suc, ◌≡◌, refl, ap, true, false, ◌||◌, List, [], ◌∷◌, some, inl, inr, arith, get_elem?,
  All-get, subst, sym, ◌≢◌, Bool-cases,
}
use zephyrftp.Base.Text.{Text, is_empty, text_eq_refl}
use zephyrftp.Backends.Identity.{Backend}
use zephyrftp.Queue.Item.{TransferItem, is_move, is_queued, is_in_progress}
use zephyrftp.Queue.Panes.{Pane}
use zephyrftp.Queue.State.{TransferManager, ActiveTransfer}
use zephyrftp.Queue.Lookup.{claims, has_key, required_backends_for_dispatch}
use zephyrftp.Queue.Dispatch.{is_none}
use zephyrftp.Queue.Events.{Reachable}
use zephyrftp.Queue.Claims.Lists.{
  covers, Exclusive, is_claimed_get, has_item, DistinctItems, holds_key, DistinctKeys,
}
use zephyrftp.Queue.Claims.Dispatching.{InvOf, required-needs}
use zephyrftp.Queue.Claims.Stepping.{Reachable-Safe}

Exclusive-once :
    (as' : List ActiveTransfer) (x j k : ℕ) (a b : ActiveTransfer)
    → Exclusive as'
    → get_elem? as' j ≡ some a
    → get_elem? as' k ≡ some b
    → claims x a.claimed_backends ≡ true
    → claims x b.claimed_backends ≡ true
    → j ≡ k
Exclusive-once [] x j k a b v e f c d = absurd (ground arith)
Exclusive-once (y ∷ as') x zero zero a b v e f c d = refl
Exclusive-once (y ∷ as') x zero (suc k) a b v e f c d =
    absurd (ground (arith, v.0 x, is_claimed_get as' k b x f d))
Exclusive-once (y ∷ as') x (suc j) zero a b v e f c d =
    absurd (ground (arith, v.0 x, is_claimed_get as' j a x e c))
Exclusive-once (y ∷ as') x (suc j) (suc k) a b v e f c d =
    ap suc (Exclusive-once as' x j k a b v.1 e f c d)

has_item_get :
    (as' : List ActiveTransfer) (k : ℕ) (a : ActiveTransfer)
    → get_elem? as' k ≡ some a
    → has_item a.item_index as' ≡ true
unfolding has_item
has_item_get [] k a e = absurd (ground arith)
has_item_get (x ∷ as') zero a e = ground arith
has_item_get (x ∷ as') (suc k) a e = ground (arith, has_item_get as' k a e)

holds_key_at :
    (as' : List ActiveTransfer) (k : ℕ) (a : ActiveTransfer)
    → get_elem? as' k ≡ some a
    → holds_key a.reserved_destination_key as' ≡ true
unfolding holds_key
holds_key_at [] k a e = absurd (ground arith)
holds_key_at (x ∷ as') zero a e = ground (arith, text_eq_refl a.reserved_destination_key)
holds_key_at (x ∷ as') (suc k) a e = ground (arith, holds_key_at as' k a e)

InvOf-reached :
    (panes : ℕ → Pane) (backends : ℕ → Backend) (staging : Text) (s : TransferManager)
    → Reachable panes backends staging s
    → s.crashed ≡ false
    → InvOf s
InvOf-reached panes backends staging s r ok = elim (Reachable-Safe panes backends staging s r) [
  | inl c ↦ absurd (ground arith)
  | inr v ↦ v
]

-- In every state that a fresh queue reaches by any sequence of requests, signals and answers, in
-- any order, and in which no null pane was dereferenced: a backend that one active transfer claims
-- is claimed by no other.
pub backend_claimed_once :
    (panes : ℕ → Pane) (backends : ℕ → Backend) (staging : Text) (s : TransferManager) (j k x : ℕ)
    (a b : ActiveTransfer)
    → Reachable panes backends staging s
    → s.crashed ≡ false
    → get_elem? s.active j ≡ some a
    → get_elem? s.active k ≡ some b
    → j ≢ k
    → claims x a.claimed_backends ≡ true
    → claims x b.claimed_backends ≡ false
backend_claimed_once panes backends staging s j k x a b r ok e f n c =
    elim (Bool-cases (claims x b.claimed_backends)) [
      | inl d ↦
          let v = InvOf-reached panes backends staging s r ok in
          absurd (n (Exclusive-once s.active x j k a b v.exclusive e f c d))
      | inr d ↦ d
    ]

DistinctItems-once :
    (as' : List ActiveTransfer) (j k : ℕ) (a b : ActiveTransfer)
    → DistinctItems as'
    → get_elem? as' j ≡ some a
    → get_elem? as' k ≡ some b
    → a.item_index ≡ b.item_index
    → j ≡ k
DistinctItems-once [] j k a b v e f q = absurd (ground arith)
DistinctItems-once (y ∷ as') zero zero a b v e f q = refl
DistinctItems-once (y ∷ as') zero (suc k) a b v e f q =
    absurd (ground (arith, v.0, has_item_get as' k b f, q))
DistinctItems-once (y ∷ as') (suc j) zero a b v e f q =
    absurd (ground (arith, v.0, has_item_get as' j a e, q))
DistinctItems-once (y ∷ as') (suc j) (suc k) a b v e f q =
    ap suc (DistinctItems-once as' j k a b v.1 e f q)

DistinctKeys-once :
    (as' : List ActiveTransfer) (j k : ℕ) (a b : ActiveTransfer)
    → DistinctKeys as'
    → get_elem? as' j ≡ some a
    → get_elem? as' k ≡ some b
    → is_empty a.reserved_destination_key ≡ false
    → a.reserved_destination_key ≡ b.reserved_destination_key
    → j ≡ k
DistinctKeys-once [] j k a b v e f n q = absurd (ground arith)
DistinctKeys-once (y ∷ as') zero zero a b v e f n q = refl
DistinctKeys-once (y ∷ as') zero (suc k) a b v e f n q =
    absurd (ground (arith, v.0, holds_key_at as' k b f, q))
DistinctKeys-once (y ∷ as') (suc j) zero a b v e f n q =
    absurd (ground (arith, v.0, holds_key_at as' j a e, q))
DistinctKeys-once (y ∷ as') (suc j) (suc k) a b v e f n q =
    ap suc (DistinctKeys-once as' j k a b v.1 e f n q)

-- In every reached state in which no null pane was dereferenced: the destination that an active
-- transfer has reserved (an empty key is none) is not the one that another has reserved.
pub destination_reserved_once :
    (panes : ℕ → Pane) (backends : ℕ → Backend) (staging : Text) (s : TransferManager) (j k : ℕ)
    (a b : ActiveTransfer)
    → Reachable panes backends staging s
    → s.crashed ≡ false
    → get_elem? s.active j ≡ some a
    → get_elem? s.active k ≡ some b
    → j ≢ k
    → is_empty a.reserved_destination_key ≡ false
    → a.reserved_destination_key ≢ b.reserved_destination_key
destination_reserved_once panes backends staging s j k a b r ok e f n full q =
    let v = InvOf-reached panes backends staging s r ok in
    n (DistinctKeys-once s.active j k a b v.distinct_keys e f full q)

-- In every reached state in which no null pane was dereferenced: two active transfers belong to
-- different items.
pub item_active_once :
    (panes : ℕ → Pane) (backends : ℕ → Backend) (staging : Text) (s : TransferManager) (j k : ℕ)
    (a b : ActiveTransfer)
    → Reachable panes backends staging s
    → s.crashed ≡ false
    → get_elem? s.active j ≡ some a
    → get_elem? s.active k ≡ some b
    → j ≢ k
    → a.item_index ≢ b.item_index
item_active_once panes backends staging s j k a b r ok e f n q =
    let v = InvOf-reached panes backends staging s r ok in
    n (DistinctItems-once s.active j k a b v.distinct_items e f q)

-- What an active transfer has: an item in the queue that is Queued or InProgress and no move,
-- InProgress if a backend executes, and all the backends that it needs; a reserved destination.
abbrev pub IsHeld : TransferManager → ActiveTransfer → Type 0
IsHeld s a =
    (item : TransferItem) × (get_elem? s.items a.item_index ≡ some item)
    × ((is_queued item.status || is_in_progress item.status) ≡ true)
    × (is_move item.direction ≡ false)
    × ((is_none a.current_executor || is_in_progress item.status) ≡ true)
    × (covers a.claimed_backends (required_backends_for_dispatch s item) ≡ true)
    × ((is_empty a.reserved_destination_key
          || has_key a.reserved_destination_key s.reserved_destination_keys)
        ≡ true)

-- In every reached state in which no null pane was dereferenced: an active transfer belongs to an
-- item of the queue that is Queued or InProgress and no move; the item is InProgress if a backend
-- executes for it; the transfer claims every backend that the item needs; and its reserved
-- destination is empty or among the reserved keys.
pub active_transfer-IsHeld :
    (panes : ℕ → Pane) (backends : ℕ → Backend) (staging : Text) (s : TransferManager) (k : ℕ)
    (a : ActiveTransfer)
    → Reachable panes backends staging s
    → s.crashed ≡ false
    → get_elem? s.active k ≡ some a
    → IsHeld s a
active_transfer-IsHeld panes backends staging s k a r ok e =
    let v = InvOf-reached panes backends staging s r ok in
    let (item, g, h) = All-get _ s.active k a v.owned e in
    (
      item,
      g,
      h.live,
      h.unmoved,
      h.executing,
      subst (λ rs. covers a.claimed_backends rs ≡ true) (sym (required-needs s item)) h.covered,
      All-get _ s.active k a v.held e,
    )
