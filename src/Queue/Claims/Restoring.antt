-- ===== src/Queue/Claims/Restoring.antt =====
-- restorePersistedQueue and tryReclaimPendingItems keep the invariant.
use zephyrftp.Base.{
  ℕ, zero, suc, ◌≡◌, refl, ap, ◌∙◌, true, false, ◌||◌, List, [], ◌∷◌, Option, some, arith,
  option-elim, if-elim, get_elem?, All, map, ◌++◌,
}
use zephyrftp.Backends.Protocol.{ConnectionDescriptor}
use zephyrftp.Queue.Item.{
  TransferItem, TransferDirection, is_move, is_queued, is_in_progress, is_remote_to_remote,
}
use zephyrftp.Queue.State.{TransferManager, ActiveTransfer, item_updated}
use mathlib.Core.List.{reverse}
use zephyrftp.Base.Text.{Text}
use zephyrftp.Queue.Lookup.{primary_of, reservation_key_at}
use zephyrftp.Queue.Store.{PersistedTransferItem}
use zephyrftp.Queue.Persist.{
  restored_item, restore_one, restore_all, restore_persisted_queue, reclaimed_item, reclaim_one,
  item_or, reclaim_items, reclaimed, reclaim_in, try_reclaim_pending_items,
}
use zephyrftp.Queue.Claims.Moves.{Moving, Moving-more}
use zephyrftp.Queue.Claims.Invariant.{Owned}
use zephyrftp.Queue.Claims.Dispatching.{InvOf, Safe, SoundIn}
use zephyrftp.Queue.Claims.Adding.{KeepsSafe, start_next-KeepsSafe, append_item-Safe}
use zephyrftp.Queue.Claims.Cancelling.{Safe-step}

restored_item_shape :
    (next executor : ℕ) (d : TransferDirection) (e : PersistedTransferItem) (item : TransferItem)
    → restored_item next executor d e ≡ some item
    → (item.id ≡ next)
      × (is_remote_to_remote item.direction ≡ false)
      × (is_move item.direction ≡ false)
unfolding restored_item
restored_item_shape next executor d e item r = ground arith

skip_id-Inv : (s : TransferManager) → InvOf s → InvOf (record s { next_id = suc s.next_id })
skip_id-Inv s v = record {
  exclusive = v.exclusive;
  distinct_items = v.distinct_items;
  distinct_keys = v.distinct_keys;
  held = v.held;
  owned = v.owned;
  sound = v.sound;
  moving = Moving-more s.index_by_id s.next_id s.items s.pending_move_item_id v.moving;
}

restore_one-KeepsSafe :
    (executor : ℕ) (e : PersistedTransferItem) → KeepsSafe (restore_one executor e)
unfolding restore_one
restore_one-KeepsSafe executor e s h =
    option-elim Safe (restored_item s.next_id executor e.direction e) _ _
      (λ _. Safe-step s (record s { next_id = suc s.next_id }) refl (skip_id-Inv s) h)
      (λ item r.
        let (same, staged, moved) = restored_item_shape s.next_id executor e.direction e item r in
        (append_item-Safe item s same ((λ x. absurd (ground arith)), ground arith) h))

restore_all-KeepsSafe :
    (executor : ℕ) (es : List PersistedTransferItem) → KeepsSafe (restore_all executor es)
unfolding restore_all
restore_all-KeepsSafe executor [] s h = h
restore_all-KeepsSafe executor (e ∷ es) s h =
    restore_all-KeepsSafe executor es (restore_one executor e s)
      (restore_one-KeepsSafe executor e s h)

pub restore_persisted_queue-KeepsSafe :
    (executor : ℕ) (es : List PersistedTransferItem)
    → KeepsSafe (restore_persisted_queue executor es)
unfolding restore_persisted_queue
restore_persisted_queue-KeepsSafe executor [] s h = h
restore_persisted_queue-KeepsSafe executor (e ∷ es) s h =
    start_next-KeepsSafe (restore_all executor (e ∷ es) s)
      (restore_all-KeepsSafe executor (e ∷ es) s h)

-- What reclaiming an item keeps of it.
reclaim_one_shape :
    (p : ℕ) (d : ConnectionDescriptor) (item : TransferItem)
    → ((is_queued item.status || is_in_progress item.status) ≡ true
        → item_or item (reclaim_one p d item) ≡ item)
      × ((item_or item (reclaim_one p d item)).direction ≡ item.direction)
unfolding reclaim_one reclaimed_item
reclaim_one_shape p d item = ((λ live. ground arith), ground arith)

get_elem?-reclaim_items :
    (p : ℕ) (d : ConnectionDescriptor) (items : List TransferItem) (i : ℕ) (item : TransferItem)
    → get_elem? items i ≡ some item
    → get_elem? (reclaim_items p d items) i ≡ some (item_or item (reclaim_one p d item))
unfolding reclaim_items
get_elem?-reclaim_items p d [] i item e = absurd (ground arith)
get_elem?-reclaim_items p d (x ∷ items) zero item e = ground arith
get_elem?-reclaim_items p d (x ∷ items) (suc i) item e = get_elem?-reclaim_items p d items i item e

reclaim_one-Sound :
    (p : ℕ) (d : ConnectionDescriptor) (s : TransferManager) (item : TransferItem)
    → SoundIn s item
    → SoundIn s (item_or item (reclaim_one p d item))
unfolding reclaim_one reclaimed_item
reclaim_one-Sound p d s item g = ((λ r. ground (arith, g.0)), ground (arith, g.1))

reclaim_items-Sound :
    (p : ℕ) (d : ConnectionDescriptor) (s : TransferManager) (items : List TransferItem)
    → All (SoundIn s) items
    → All (SoundIn s) (reclaim_items p d items)
unfolding reclaim_items
reclaim_items-Sound p d s [] g = tt
reclaim_items-Sound p d s (item ∷ items) g =
    (reclaim_one-Sound p d s item g.0, reclaim_items-Sound p d s items g.1)

reclaim_items-Owned :
    (p : ℕ) (d : ConnectionDescriptor) (primary : Option ℕ → Option ℕ)
    (key_of : Option ℕ → Text → Text) (items : List TransferItem) (as' : List ActiveTransfer)
    → All (Owned primary key_of items) as'
    → All (Owned primary key_of (reclaim_items p d items)) as'
reclaim_items-Owned p d primary key_of items [] h = tt
reclaim_items-Owned p d primary key_of items (a ∷ as') ((item, e, h), hs) = (
  (
    item,
    get_elem?-reclaim_items p d items a.item_index item e
        ∙ ap some ((reclaim_one_shape p d item).0 h.live),
    h,
  ),
  reclaim_items-Owned p d primary key_of items as' hs,
)

reclaim_items-Moving :
    (p : ℕ) (d : ConnectionDescriptor) (index : List (ℕ × ℕ)) (next : ℕ) (items : List TransferItem)
    (es : List (ℕ × ℕ))
    → All (Moving index next items) es
    → All (Moving index next (reclaim_items p d items)) es
reclaim_items-Moving p d index next items [] h = tt
reclaim_items-Moving p d index next items (r ∷ es) ((b, (j, it, l, at, m)), hs) = (
  (
    b,
    (
      j,
      item_or it (reclaim_one p d it),
      l,
      get_elem?-reclaim_items p d items j it at,
      ap is_move (reclaim_one_shape p d it).1 ∙ m,
    ),
  ),
  reclaim_items-Moving p d index next items es hs,
)

reclaim-Inv :
    (p : ℕ) (d : ConnectionDescriptor) (s : TransferManager)
    → InvOf s
    → InvOf (record s { items = reclaim_items p d s.items })
reclaim-Inv p d s v = record {
  exclusive = v.exclusive;
  distinct_items = v.distinct_items;
  distinct_keys = v.distinct_keys;
  held = v.held;
  owned =
      reclaim_items-Owned p d (primary_of s.panes) (reservation_key_at s.panes s.backends) s.items
        s.active v.owned;
  sound = reclaim_items-Sound p d s s.items v.sound;
  moving = reclaim_items-Moving p d s.index_by_id s.next_id s.items s.pending_move_item_id v.moving;
}

reclaim_in-KeepsSafe : (p : ℕ) (rs : List TransferItem) → KeepsSafe (reclaim_in p rs)
unfolding reclaim_in
reclaim_in-KeepsSafe p [] s h = h
reclaim_in-KeepsSafe p (r ∷ rs) s h =
    let d = (s.panes p).connection_descriptor in
    start_next-KeepsSafe
      (record s {
        items = reclaim_items p d s.items;
        scan_floor = 0;
        log = reverse (map item_updated (r ∷ rs)) ++ s.log;
      })
      (Safe-step s (record s { items = reclaim_items p d s.items }) refl (reclaim-Inv p d s) h)

pub try_reclaim_pending_items-KeepsSafe : (p : ℕ) → KeepsSafe (try_reclaim_pending_items p)
unfolding try_reclaim_pending_items
try_reclaim_pending_items-KeepsSafe p s h =
    if-elim Safe _ _ _ (λ _. h)
      (λ _. reclaim_in-KeepsSafe p (reclaimed p (s.panes p).connection_descriptor s.items) s h)
