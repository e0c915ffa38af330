-- ===== src/Queue/Controls.antt =====
-- cancelItem, retryItem, pauseItem, resumeItem and clearItems of transfer/TransferManager.cpp.
use zephyrftp.Base.{
  ℕ, true, false, ◌||◌, List, [], ◌∷◌, ◌++◌, none, some, ltb, if◌then◌else◌, get_elem?, set,
}
use zephyrftp.Queue.Item.{
  TransferItem, TransferStatus, TransferPhase, blank, is_queued, is_paused, is_pending_reconnect,
  is_retryable, is_terminal, is_move, is_remote_to_remote,
}
use zephyrftp.Queue.State.{
  TransferManager, ActiveTransfer, request_cancel, request_pause, item_updated, item_removed, emit,
}
use zephyrftp.Queue.Lookup.{
  active_index_for_item, index_of_id, release_active_transfer, cleaned_item, cleanup_effects,
}
use zephyrftp.Queue.Dispatch.{start_next}

unfoldable pub cancelled_item : TransferItem → TransferItem
unfolding cleaned_item
cancelled_item item =
    cleaned_item (record item { status = TransferStatus.cancelled; speed_bytes_per_sec = 0 })

-- An item with an entry: its backend is asked to stop; with no backend left it ends here.
unfoldable pub cancel_active :
    ℕ → TransferItem → ℕ → ActiveTransfer → TransferManager → TransferManager
unfolding cancelled_item
cancel_active i item k a s = elim a.current_executor [
  | some b ↦ record s {
    active = set s.active k (record a { cancelled = true });
    log = request_cancel b ∷ s.log;
  }
  | none ↦ start_next (
      release_active_transfer k (record s {
        items = set s.items i (cancelled_item item);
        log = item_updated (cancelled_item item) ∷ (cleanup_effects item ++ s.log);
      }))
]

-- An item with no entry: only one that is not finished is cancelled.
unfoldable pub cancel_waiting : ℕ → TransferItem → TransferManager → TransferManager
cancel_waiting i item s =
    if is_queued item.status || (is_paused item.status || is_pending_reconnect item.status)
    then record s {
      items = set s.items i (record item { status = TransferStatus.cancelled });
      log = item_updated (record item { status = TransferStatus.cancelled }) ∷ s.log;
    }
    else s

unfoldable pub cancel_at : ℕ → TransferManager → TransferManager
unfolding cancel_active cancel_waiting
cancel_at i s = elim (get_elem? s.items i) [
  | none ↦ s
  | some item ↦ elim (active_index_for_item s.active i) [
    | none ↦ cancel_waiting i item s
    | some k ↦ elim (get_elem? s.active k) [ none ↦ s | some a ↦ cancel_active i item k a s ]
  ]
]

-- cancelItem
unfoldable pub cancel_item : ℕ → TransferManager → TransferManager
unfolding cancel_at
cancel_item id s = elim (index_of_id s id) [ none ↦ s | some i ↦ cancel_at i s ]

-- What retryItem makes of an item: it starts over.
unfoldable pub restarted_item : TransferItem → TransferItem
restarted_item item =
    let fresh = record item {
      status = TransferStatus.queued;
      bytes_done = 0;
      bytes_total = 0;
      error_message = blank;
      skip_conflict_check_on_dispatch = false;
      transfer_backend_captured = false;
      captured_transfer_backend = none;
    } in
    if is_remote_to_remote item.direction
    then record fresh { phase = TransferPhase.downloading; temp_file_path = [] }
    else fresh

-- the floor comes down to an item that returns to the queue
abbrev pub lowered : ℕ → ℕ → ℕ
lowered i floor = if ltb i floor then i else floor

unfoldable pub retry_at : ℕ → TransferItem → TransferManager → TransferManager
unfolding restarted_item
retry_at i item s =
    if is_move item.direction
    then record s { scan_floor = lowered i s.scan_floor }
    else start_next (record s {
      items = set s.items i (restarted_item item);
      scan_floor = lowered i s.scan_floor;
      log = item_updated (restarted_item item) ∷ s.log;
    })

-- retryItem
unfoldable pub retry_item : ℕ → TransferManager → TransferManager
unfolding retry_at
retry_item id s = elim (index_of_id s id) [
  | none ↦ s
  | some i ↦ elim (get_elem? s.items i) [
    | none ↦ s
    | some item ↦ if is_retryable item.status then retry_at i item s else s
  ]
]

-- One id of clearItems: only an item that has ended is hidden.
unfoldable pub clear_one : ℕ → TransferManager → TransferManager
clear_one id s = elim (index_of_id s id) [
  | none ↦ s
  | some i ↦ elim (get_elem? s.items i) [
    | none ↦ s
    | some item ↦
        if is_terminal item.status
        then record s {
          items = set s.items i (record item { cleared_from_queue = true });
          log = item_removed id ∷ s.log;
        }
        else s
  ]
]

-- clearItems
unfoldable pub clear_items : List ℕ → TransferManager → TransferManager
unfolding clear_one
clear_items [] s = s
clear_items (id ∷ ids) s = clear_items ids (clear_one id s)

unfoldable pub pause_entry : ActiveTransfer → TransferManager → TransferManager
pause_entry a s = elim a.current_executor [ none ↦ s | some b ↦ emit (request_pause b) s ]

-- pauseItem: the status changes when the backend confirms
unfoldable pub pause_item : ℕ → TransferManager → TransferManager
unfolding pause_entry
pause_item id s = elim (index_of_id s id) [
  | none ↦ s
  | some i ↦ elim (active_index_for_item s.active i) [
    | none ↦ s
    | some k ↦ elim (get_elem? s.active k) [ none ↦ s | some a ↦ pause_entry a s ]
  ]
]

unfoldable pub resumed_item : TransferItem → TransferItem
resumed_item item = record item {
  status = TransferStatus.queued;
  skip_conflict_check_on_dispatch = true;
}

-- resumeItem: the bytes done stay, as the offset of the next dispatch
unfoldable pub resume_item : ℕ → TransferManager → TransferManager
unfolding resumed_item
resume_item id s = elim (index_of_id s id) [
  | none ↦ s
  | some i ↦ elim (get_elem? s.items i) [
    | none ↦ s
    | some item ↦
        if is_paused item.status
        then start_next (record s {
          items = set s.items i (resumed_item item);
          scan_floor = lowered i s.scan_floor;
          log = item_updated (resumed_item item) ∷ s.log;
        })
        else s
  ]
]
