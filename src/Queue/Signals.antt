-- ===== src/Queue/Signals.antt =====
-- The slots for the signals of a running transfer and of a move (transfer/TransferManager.cpp).
-- The sender of a signal is an argument. The displayed speed is a floating-point average over a
-- timer: where a sample is due it is an argument too.
use zephyrftp.Base.{
  ℕ, Bool, ◌&&◌, ◌∷◌, ◌++◌, Option, none, some, ltb, if◌then◌else◌, get_elem?, set,
}
use zephyrftp.Base.Text.{Text}
use zephyrftp.Base.Maps.{lookup, erase}
use zephyrftp.Queue.Item.{
  TransferItem, TransferStatus, TransferPhase, blank, reported, is_remote_to_remote, is_downloading,
}
use zephyrftp.Queue.State.{TransferManager, ActiveTransfer, item_updated, transfer_succeeded}
use zephyrftp.Queue.Lookup.{
  active_index_for_executor, index_of_id, release_active_transfer, cleaned_item, cleanup_effects,
}
use zephyrftp.Queue.Dispatch.{start_next}
use zephyrftp.Queue.Execute.{dispatch_active_item}
use zephyrftp.Queue.Replies.{maybe_reset_move}

-- Runs a handler with the entry that executes on the sender, and its item.
unfoldable pub with_executor :
    ℕ
    → (ℕ → ActiveTransfer → TransferItem → TransferManager → TransferManager)
    → TransferManager
    → TransferManager
with_executor b handler s = elim (active_index_for_executor s.active b) [
  | none ↦ s
  | some k ↦ elim (get_elem? s.active k) [
    | none ↦ s
    | some a ↦ elim (get_elem? s.items a.item_index) [ none ↦ s | some item ↦ handler k a item s ]
  ]
]

-- A sample of the speed replaces the last one, where the timer says that one is due.
abbrev pub sampled : Option ℕ → ℕ → ℕ
sampled none old = old
sampled (some v) old = v

unfoldable pub progressed_item : ℕ → ℕ → Option ℕ → TransferItem → TransferItem
progressed_item done total sample item = record item {
  bytes_done = done;
  bytes_total = total;
  speed_bytes_per_sec = sampled sample item.speed_bytes_per_sec;
}

unfoldable pub progress_entry :
    ℕ → ℕ → Option ℕ → ℕ → ActiveTransfer → TransferItem → TransferManager → TransferManager
unfolding progressed_item
progress_entry done total sample k a item s = record s {
  items = set s.items a.item_index (progressed_item done total sample item);
  log = item_updated (progressed_item done total sample item) ∷ s.log;
}

-- onBackendProgress
unfoldable pub on_backend_progress : ℕ → ℕ → ℕ → Option ℕ → TransferManager → TransferManager
unfolding with_executor progress_entry
on_backend_progress b done total sample = with_executor b (progress_entry done total sample)

-- The second phase of a staged transfer begins.
unfoldable pub staged_item : TransferItem → TransferItem
staged_item item = record item {
  phase = TransferPhase.uploading;
  bytes_done = 0;
  bytes_total = 0;
  speed_bytes_per_sec = 0;
}

unfoldable pub finished_item : TransferItem → TransferItem
unfolding cleaned_item
finished_item item = cleaned_item (record item {
  status = TransferStatus.done;
  bytes_done = (if ltb 0 item.bytes_total then item.bytes_total else item.bytes_done);
  speed_bytes_per_sec = 0;
})

unfoldable pub finish_entry : ℕ → ActiveTransfer → TransferItem → TransferManager → TransferManager
unfolding staged_item finished_item
finish_entry k a item s =
    if is_remote_to_remote item.direction && is_downloading item.phase
    then dispatch_active_item start_next a.item_index (record s {
      items = set s.items a.item_index (staged_item item);
      log = item_updated (staged_item item) ∷ s.log;
    })
    else start_next (
        release_active_transfer k (record s {
          items = set s.items a.item_index (finished_item item);
          log =
              transfer_succeeded
              ∷ (item_updated (finished_item item) ∷ (cleanup_effects item ++ s.log));
        }))

-- onBackendFinished
unfoldable pub on_backend_finished : ℕ → TransferManager → TransferManager
unfolding with_executor finish_entry
on_backend_finished b = with_executor b finish_entry

unfoldable pub failed_item : Bool → Text → TransferItem → TransferItem
unfolding cleaned_item
failed_item cancelled reason item = cleaned_item (record item {
  status = (if cancelled then TransferStatus.cancelled else TransferStatus.failed);
  error_message = (if cancelled then blank else reported reason);
  speed_bytes_per_sec = 0;
})

unfoldable pub fail_entry :
    Text → ℕ → ActiveTransfer → TransferItem → TransferManager → TransferManager
unfolding failed_item
fail_entry reason k a item s = start_next (
    release_active_transfer k (record s {
      items = set s.items a.item_index (failed_item a.cancelled reason item);
      log = item_updated (failed_item a.cancelled reason item) ∷ (cleanup_effects item ++ s.log);
    }))

-- onBackendFailed
unfoldable pub on_backend_failed : ℕ → Text → TransferManager → TransferManager
unfolding with_executor fail_entry
on_backend_failed b reason = with_executor b (fail_entry reason)

unfoldable pub paused_item : ℕ → TransferItem → TransferItem
paused_item done item = record item {
  status = TransferStatus.paused;
  bytes_done = done;
  speed_bytes_per_sec = 0;
}

unfoldable pub pause_running :
    ℕ → ℕ → ActiveTransfer → TransferItem → TransferManager → TransferManager
unfolding paused_item
pause_running done k a item s = start_next (
    release_active_transfer k (record s {
      items = set s.items a.item_index (paused_item done item);
      log = item_updated (paused_item done item) ∷ s.log;
    }))

-- onBackendPaused
unfoldable pub on_backend_paused : ℕ → ℕ → TransferManager → TransferManager
unfolding with_executor pause_running
on_backend_paused b done = with_executor b (pause_running done)

-- The move request is taken out, and its item is looked up.
unfoldable pub settle_move :
    ℕ → (ℕ → TransferItem → TransferManager → TransferManager) → TransferManager → TransferManager
unfolding maybe_reset_move
settle_move request settle s = elim (lookup request s.pending_move_item_id) [
  | none ↦ s
  | some id ↦
      let s' =
        maybe_reset_move
          (record s { pending_move_item_id = erase request s.pending_move_item_id }) in
      elim (index_of_id s' id) [
        | none ↦ s'
        | some i ↦ elim (get_elem? s'.items i) [ none ↦ s' | some item ↦ settle i item s' ]
      ]
]

unfoldable pub move_done : ℕ → TransferItem → TransferManager → TransferManager
move_done i item s = record s {
  items = set s.items i (record item { status = TransferStatus.done });
  log = transfer_succeeded ∷ (item_updated (record item { status = TransferStatus.done }) ∷ s.log);
}

unfoldable pub move_failed : Text → ℕ → TransferItem → TransferManager → TransferManager
move_failed reason i item s = record s {
  items =
      set s.items i
        (record item { status = TransferStatus.failed; error_message = reported reason });
  log =
      item_updated (record item { status = TransferStatus.failed; error_message = reported reason })
      ∷ s.log;
}

-- onEntryMoved
unfoldable pub on_entry_moved : ℕ → TransferManager → TransferManager
unfolding settle_move move_done
on_entry_moved request = settle_move request move_done

-- onEntryMoveFailed
unfoldable pub on_entry_move_failed : Text → ℕ → TransferManager → TransferManager
unfolding settle_move move_failed
on_entry_move_failed reason request = settle_move request (move_failed reason)
