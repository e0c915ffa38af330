-- ===== src/Queue/Claims/Pending.antt =====
-- The requests that are pending: checks, enumerations and moves.
use zephyrftp.Base.{
  ℕ, ◌≡◌, refl, Bool, true, ◌∷◌, inl, inr, arith, Option-cases, if-elim, get_elem?, set, All-get,
  if◌then◌else◌, length, get_elem?-append_last,
}
use zephyrftp.Base.Maps.{insert, lookup-insert}
use zephyrftp.Queue.Item.{TransferItem, TransferStatus, is_move, cannot_merge}
use zephyrftp.Queue.State.{
  TransferManager, PendingFolder, PendingMove, folder_transfer_skipped, emit, item_updated,
}
use zephyrftp.Queue.Lookup.{active_index_for_item}
use zephyrftp.Queue.Dispatch.{start_next}
use zephyrftp.Queue.Execute.{dispatch_active_item}
use zephyrftp.Queue.Enqueue.{append_item}
use zephyrftp.Queue.Replies.{
  start_enumeration, move_item, dispatch_move_entry, maybe_reset_move, refuse_merge, skip_move,
  skipped_item, release_if_active, skip_file,
}
use zephyrftp.Queue.Claims.Keys.{active_index_found, active_index_none}
use zephyrftp.Queue.Claims.Moves.{Moving, Moving-insert}
use zephyrftp.Queue.Claims.Invariant.{Inv-set_absent}
use zephyrftp.Queue.Claims.Dispatching.{InvOf, Safe, SoundIn, dispatch_active_item-Safe}
use zephyrftp.Queue.Claims.Crash.{start_next-KeepsCrash, dispatch_active_item-KeepsCrash}
use zephyrftp.Queue.Claims.Scanning.{start_next-Safe}
use zephyrftp.Queue.Claims.Adding.{KeepsSafe, Safe-of, start_next-KeepsSafe, append_item-Safe}
use zephyrftp.Queue.Claims.Cancelling.{Safe-step, finish-KeepsSafe}

pub start_enumeration-KeepsSafe :
    (p : PendingFolder) (root_exists : Bool) → KeepsSafe (start_enumeration p root_exists)
unfolding start_enumeration
start_enumeration-KeepsSafe p root_exists s h = h

pub maybe_reset_move-KeepsSafe : KeepsSafe maybe_reset_move
unfolding maybe_reset_move
maybe_reset_move-KeepsSafe s h = if-elim Safe _ _ _ (λ _. h) (λ _. h)

-- A pending request is entered for an item that is a move.
insert-Inv :
    (request id : ℕ) (s : TransferManager)
    → InvOf s
    → Moving s.index_by_id s.next_id s.items (request, id)
    → InvOf (record s { pending_move_item_id = insert request id s.pending_move_item_id })
insert-Inv request id s v m = record {
  exclusive = v.exclusive;
  distinct_items = v.distinct_items;
  distinct_keys = v.distinct_keys;
  held = v.held;
  owned = v.owned;
  sound = v.sound;
  moving =
      Moving-insert s.index_by_id s.next_id s.items request id s.pending_move_item_id m v.moving;
}

move_item-Sound : (s : TransferManager) (m : PendingMove) → SoundIn s (move_item s m)
unfolding move_item
move_item-Sound s m = ((λ r. absurd (ground arith)), refl)

append_item-Moving :
    (request : ℕ) (s : TransferManager) (item : TransferItem)
    → item.id ≡ s.next_id
    → is_move item.direction ≡ true
    → Moving
        (append_item item s).index_by_id
        (append_item item s).next_id
        (append_item item s).items
        (request, item.id)
unfolding append_item
append_item-Moving request s item e m = (
  omega arith,
  (
    length s.items,
    item,
    ground (arith, lookup-insert item.id item.id (length s.items) s.index_by_id),
    get_elem?-append_last s.items item,
    m,
  ),
)

pub dispatch_move_entry-KeepsSafe : (m : PendingMove) → KeepsSafe (dispatch_move_entry m)
unfolding dispatch_move_entry
dispatch_move_entry-KeepsSafe m s h =
    let item = move_item s m in
    Safe-step (append_item item s)
      (record (append_item item s) {
        pending_move_item_id = insert s.next_move_request_id item.id s.pending_move_item_id;
      })
      refl
      (λ v. insert-Inv s.next_move_request_id item.id (append_item item s) v (
        append_item-Moving s.next_move_request_id s item (unfold move_item in refl)
          (unfold move_item in refl)))
      (append_item-Safe item s (unfold move_item in refl) (move_item-Sound s m) h)

pub refuse_merge-KeepsSafe : (m : PendingMove) → KeepsSafe (refuse_merge m)
unfolding refuse_merge
refuse_merge-KeepsSafe m s h =
    let item = record (move_item s m) {
      status = TransferStatus.failed;
      error_message = cannot_merge m.name;
    } in
    maybe_reset_move-KeepsSafe (append_item item s) (
      append_item-Safe item s (unfold move_item in refl)
        ((λ r. absurd (unfold move_item in ground arith)), (unfold move_item in refl)) h)

pub skip_move-KeepsSafe : (m : PendingMove) → KeepsSafe (skip_move m)
unfolding skip_move
skip_move-KeepsSafe m s h =
    maybe_reset_move-KeepsSafe (if m.is_folder then emit (folder_transfer_skipped m.name) s else s)
      (if-elim Safe _ _ _ (λ _. h) (λ _. h))

skipped_item-Sound :
    (s : TransferManager) (item : TransferItem) → SoundIn s item → SoundIn s (skipped_item item)
unfolding skipped_item
skipped_item-Sound s item g = (g.0, ground arith)

skipped_item-direction : (item : TransferItem) → (skipped_item item).direction ≡ item.direction
unfolding skipped_item
skipped_item-direction item = refl

pub skip_file-KeepsSafe : (i : ℕ) → KeepsSafe (skip_file i)
unfolding skip_file
skip_file-KeepsSafe i s h = elim (Option-cases (get_elem? s.items i)) [
  | inl e ↦ rw (e, skip_file) h
  | inr (item, e) ↦ elim (Option-cases (active_index_for_item s.active i)) [
    | inl n ↦
        rw (e, n, skip_file, release_if_active)
          (start_next-KeepsSafe
            (record s {
              items = set s.items i (skipped_item item);
              log = item_updated (skipped_item item) ∷ s.log;
            })
            (Safe-step s (record s { items = set s.items i (skipped_item item) }) refl
              (λ v.
                Inv-set_absent _ _ _ _ _ i item (skipped_item item) v e
                  (active_index_none s.active i n)
                  (skipped_item-Sound s item (All-get _ s.items i item v.sound e))
                  (skipped_item-direction item))
              h))
    | inr (k, f) ↦
        let (a, at, q) = active_index_found s.active i k f in
        rw (e, f, skip_file, release_if_active)
          (finish-KeepsSafe k i item (skipped_item item) a
            (item_updated (skipped_item item) ∷ s.log) s h at q e (skipped_item-Sound s item)
            (skipped_item-direction item))
  ]
]

pub dispatch-KeepsSafe : (i : ℕ) → KeepsSafe (dispatch_active_item start_next i)
dispatch-KeepsSafe i =
    Safe-of (dispatch_active_item start_next i)
      (dispatch_active_item-KeepsCrash start_next start_next-KeepsCrash i)
      (dispatch_active_item-Safe start_next start_next-Safe i)
