-- ===== src/Queue/Execute.antt =====
-- dispatchActiveItem of transfer/TransferManager.cpp. An item with no backend left fails at once, and
-- the scan is made again: `again` is that scan.
use zephyrftp.Base.{
  ℕ, ◌&&◌, not, List, [], ◌∷◌, ◌++◌, Option, none, some, if◌then◌else◌, get_elem?, set,
}
use zephyrftp.Base.Text.{is_empty}
use zephyrftp.Queue.Item.{
  TransferItem, TransferDirection, TransferStatus, Message, no_backend, destination_changed,
  is_remote_to_remote, is_downloading,
}
use zephyrftp.Queue.State.{
  TransferManager, ActiveTransfer, Effect, upload_file, download_file, item_updated,
}
use zephyrftp.Queue.Lookup.{
  required_backends_for_dispatch, active_index_for_item, release_active_transfer,
  allocate_temp_file_path, cleaned_item, cleanup_effects, backend_of,
}

-- The call that executes an item on a backend, by its direction and phase.
unfoldable pub transfer_call : TransferDirection → ℕ → TransferItem → List Effect
transfer_call TransferDirection.local_to_remote b item =
    upload_file b item.source_path item.dest_path item.bytes_done ∷ []
transfer_call TransferDirection.remote_to_local b item =
    download_file b item.source_path item.dest_path item.bytes_done ∷ []
transfer_call TransferDirection.local_to_local b item =
    upload_file b item.source_path item.dest_path item.bytes_done ∷ []
transfer_call TransferDirection.remote_to_remote b item =
    if is_downloading item.phase
    then download_file b item.source_path item.temp_file_path item.bytes_done ∷ []
    else upload_file b item.temp_file_path item.dest_path item.bytes_done ∷ []
transfer_call TransferDirection.edit_download b item =
    download_file b item.source_path item.dest_path item.bytes_done ∷ []
transfer_call TransferDirection.edit_upload b item =
    upload_file b item.source_path item.dest_path item.bytes_done ∷ []
transfer_call TransferDirection.move b item = []
transfer_call TransferDirection.unsupported b item = []

-- A first dispatch of a staged item allocates its temporary file and captures its destination.
unfoldable pub prepared : TransferManager → TransferItem → TransferItem
prepared s item =
    if is_remote_to_remote item.direction && is_empty item.temp_file_path
    then record item {
      temp_file_path = allocate_temp_file_path s item;
      captured_dest_backend = backend_of s item.dest_pane;
    }
    else item

-- What dispatchActiveItem makes of the item before it asks for the executor.
unfoldable pub started_item : TransferManager → TransferItem → TransferItem
unfolding prepared
started_item s item =
    prepared s (record item { status = TransferStatus.in_progress; speed_bytes_per_sec = 0 })

abbrev pub dispatch_error : TransferItem → Message
dispatch_error item =
    if is_remote_to_remote item.direction && not (is_downloading item.phase)
    then destination_changed
    else no_backend

unfoldable pub failed_dispatch_item : TransferItem → TransferItem
unfolding cleaned_item
failed_dispatch_item item =
    cleaned_item
      (record item { status = TransferStatus.failed; error_message = dispatch_error item })

-- No backend: the item fails and gives its place back.
unfoldable pub fail_dispatch : ℕ → ℕ → TransferItem → TransferManager → TransferManager
unfolding failed_dispatch_item cleanup_effects
fail_dispatch i k item s = release_active_transfer k (record s {
  items = set s.items i (failed_dispatch_item item);
  log = item_updated (failed_dispatch_item item) ∷ (cleanup_effects item ++ s.log);
})

-- The entry is refreshed to what is required now, and the call goes out.
unfoldable pub run_on :
    ℕ → ℕ → ActiveTransfer → TransferItem → List (Option ℕ) → TransferManager → TransferManager
unfolding transfer_call
run_on b k a item required s = record s {
  active = set s.active k (record a { claimed_backends = required; current_executor = some b });
  log = transfer_call item.direction b item ++ s.log;
}

abbrev pub first_backend : List (Option ℕ) → Option ℕ
first_backend [] = none
first_backend (r ∷ rs) = r

-- The call on the executor, or the failure for want of one and the scan for another item.
unfoldable pub execute :
    (TransferManager → TransferManager)
    → ℕ
    → ℕ
    → ActiveTransfer
    → TransferItem
    → Option ℕ
    → TransferManager
    → TransferManager
unfolding fail_dispatch run_on
execute again i k a item none s = again (fail_dispatch i k item s)
execute again i k a item (some b) s = run_on b k a item (required_backends_for_dispatch s item) s

-- The item is shown as in progress.
unfoldable pub start_item : ℕ → TransferItem → TransferManager → TransferManager
unfolding started_item
start_item i item s = record s {
  items = set s.items i (started_item s item);
  log =
      item_updated (record item { status = TransferStatus.in_progress; speed_bytes_per_sec = 0 })
      ∷ s.log;
}

abbrev pub executor_of : TransferManager → TransferItem → Option ℕ
executor_of s item = first_backend (required_backends_for_dispatch s item)

-- dispatchActiveItem, for an item with its entry
unfoldable pub dispatch_entry :
    (TransferManager → TransferManager)
    → ℕ
    → ℕ
    → ActiveTransfer
    → TransferItem
    → TransferManager
    → TransferManager
unfolding start_item execute
dispatch_entry again i k a item s =
    execute again i k a (started_item s item) (executor_of s (started_item s item))
      (start_item i item s)

-- dispatchActiveItem
unfoldable pub dispatch_active_item :
    (TransferManager → TransferManager) → ℕ → TransferManager → TransferManager
dispatch_active_item again i s = elim (get_elem? s.items i) [
  | none ↦ s
  | some item ↦ elim (active_index_for_item s.active i) [
    | none ↦ s
    | some k ↦ elim (get_elem? s.active k) [ none ↦ s | some a ↦ dispatch_entry again i k a item s ]
  ]
]
