-- ===== src/Queue/Persist.antt =====
-- saveQueueForShutdown, restorePersistedQueue and tryReclaimPendingItems of
-- transfer/TransferManager.cpp.
use zephyrftp.Base.{
  ℕ, Bool, true, false, ◌&&◌, not, List, [], ◌∷◌, ◌++◌, Option, none, some, ltb, ◌==◌,
  if◌then◌else◌, suc, map,
}
use mathlib.Core.List.{reverse}
use zephyrftp.Base.Text.{text_eq}
use zephyrftp.Backends.Protocol.{ConnectionDescriptor, protocol_eq, no_connection, is_unconnected}
use zephyrftp.Queue.Item.{
  TransferItem, TransferDirection, TransferStatus, new_item, is_pending_reconnect,
}
use zephyrftp.Queue.State.{TransferManager, item_updated}
use zephyrftp.Queue.Dispatch.{start_next}
use zephyrftp.Queue.Enqueue.{append_item}
use zephyrftp.Queue.Store.{PersistedTransferItem}

-- the directions that are ever persisted
unfoldable pub is_persisted_direction : TransferDirection → Bool
is_persisted_direction TransferDirection.local_to_local = true
is_persisted_direction TransferDirection.local_to_remote = true
is_persisted_direction TransferDirection.remote_to_local = true
is_persisted_direction _ = false

unfoldable pub is_persisted_status : TransferStatus → Bool
is_persisted_status TransferStatus.queued = true
is_persisted_status TransferStatus.paused = true
is_persisted_status TransferStatus.in_progress = true
is_persisted_status _ = false

abbrev pub connection_of : TransferManager → Option ℕ → ConnectionDescriptor
connection_of s none = no_connection
connection_of s (some p) = (s.panes p).connection_descriptor

unfoldable pub persisted_item : TransferManager → TransferItem → PersistedTransferItem
persisted_item s item = record {
  file_name = item.file_name;
  source_path = item.source_path;
  dest_path = item.dest_path;
  direction = item.direction;
  bytes_done = item.bytes_done;
  bytes_total = item.bytes_total;
  source_connection = connection_of s item.source_pane;
  dest_connection = connection_of s item.dest_pane;
}

-- an item whose remote side has no connection to wait for
unfoldable pub lacks_connection : PersistedTransferItem → TransferDirection → Bool
unfolding is_unconnected
lacks_connection e TransferDirection.local_to_remote = is_unconnected e.dest_connection
lacks_connection e TransferDirection.remote_to_local = is_unconnected e.source_connection
lacks_connection e _ = false

abbrev pub is_saved : TransferManager → TransferItem → Bool
is_saved s item =
    is_persisted_direction item.direction
    && (is_persisted_status item.status
        && not (lacks_connection (persisted_item s item) item.direction))

unfoldable pub persisted_items : TransferManager → List TransferItem → List PersistedTransferItem
unfolding is_persisted_direction is_persisted_status lacks_connection
persisted_items s [] = []
persisted_items s (item ∷ items) =
    let rest = persisted_items s items in
    if is_saved s item then persisted_item s item ∷ rest else rest

-- saveQueueForShutdown: what it hands to the store
unfoldable pub save_queue_for_shutdown : TransferManager → List PersistedTransferItem
unfolding persisted_items
save_queue_for_shutdown s = persisted_items s s.items

-- The item that an entry is restored to; `none` for a direction that is never persisted.
unfoldable pub restored_item :
    ℕ → ℕ → TransferDirection → PersistedTransferItem → Option TransferItem
unfolding new_item
restored_item id executor TransferDirection.local_to_local e = some (record (new_item id) {
  file_name = e.file_name;
  source_path = e.source_path;
  dest_path = e.dest_path;
  direction = TransferDirection.local_to_local;
  source_pane = some executor;
  dest_pane = some executor;
})
restored_item id executor TransferDirection.local_to_remote e = some (record (new_item id) {
  file_name = e.file_name;
  source_path = e.source_path;
  dest_path = e.dest_path;
  direction = TransferDirection.local_to_remote;
  status = TransferStatus.pending_reconnect;
  bytes_done = e.bytes_done;
  bytes_total = e.bytes_total;
  source_pane = some executor;
  pending_connection = e.dest_connection;
})
restored_item id executor TransferDirection.remote_to_local e = some (record (new_item id) {
  file_name = e.file_name;
  source_path = e.source_path;
  dest_path = e.dest_path;
  direction = TransferDirection.remote_to_local;
  status = TransferStatus.pending_reconnect;
  bytes_done = e.bytes_done;
  bytes_total = e.bytes_total;
  dest_pane = some executor;
  pending_connection = e.source_connection;
})
restored_item id executor _ e = none

unfoldable pub restore_one : ℕ → PersistedTransferItem → TransferManager → TransferManager
unfolding restored_item append_item
restore_one executor e s = elim (restored_item s.next_id executor e.direction e) [
  | none ↦ record s { next_id = suc s.next_id }
  | some item ↦ append_item item s
]

unfoldable pub restore_all : ℕ → List PersistedTransferItem → TransferManager → TransferManager
unfolding restore_one
restore_all executor [] s = s
restore_all executor (e ∷ es) s = restore_all executor es (restore_one executor e s)

-- restorePersistedQueue, with what the store loaded
unfoldable pub restore_persisted_queue :
    ℕ → List PersistedTransferItem → TransferManager → TransferManager
unfolding restore_all
restore_persisted_queue executor [] s = s
restore_persisted_queue executor (e ∷ es) s = start_next (restore_all executor (e ∷ es) s)

-- the same protocol, host, port and user; the saved site does not count
unfoldable pub same_connection : ConnectionDescriptor → ConnectionDescriptor → Bool
same_connection a b =
    protocol_eq a.protocol b.protocol
    && (text_eq a.host b.host && (a.port == b.port && text_eq a.username b.username))

unfoldable pub reclaimed_item : ℕ → TransferDirection → TransferItem → Option TransferItem
reclaimed_item p TransferDirection.remote_to_local item = some (record item {
  source_pane = some p;
  status = TransferStatus.queued;
  skip_conflict_check_on_dispatch = ltb 0 item.bytes_done;
})
reclaimed_item p TransferDirection.local_to_remote item = some (record item {
  dest_pane = some p;
  status = TransferStatus.queued;
  skip_conflict_check_on_dispatch = ltb 0 item.bytes_done;
})
reclaimed_item p _ item = none

-- What the reconnected pane makes of an item; `none` leaves it as it is.
unfoldable pub reclaim_one : ℕ → ConnectionDescriptor → TransferItem → Option TransferItem
unfolding same_connection reclaimed_item
reclaim_one p d item =
    if is_pending_reconnect item.status && same_connection item.pending_connection d
    then reclaimed_item p item.direction item
    else none

abbrev pub item_or : TransferItem → Option TransferItem → TransferItem
item_or item none = item
item_or item (some item') = item'

unfoldable pub reclaim_items : ℕ → ConnectionDescriptor → List TransferItem → List TransferItem
unfolding reclaim_one
reclaim_items p d [] = []
reclaim_items p d (item ∷ items) = item_or item (reclaim_one p d item) ∷ reclaim_items p d items

-- the items that were reclaimed, for itemUpdated
unfoldable pub reclaimed : ℕ → ConnectionDescriptor → List TransferItem → List TransferItem
unfolding reclaim_one
reclaimed p d [] = []
reclaimed p d (item ∷ items) = elim (reclaim_one p d item) [
  | none ↦ reclaimed p d items
  | some item' ↦ item' ∷ reclaimed p d items
]

unfoldable pub reclaim_in : ℕ → List TransferItem → TransferManager → TransferManager
unfolding reclaim_items
reclaim_in p [] s = s
reclaim_in p (r ∷ rs) s = start_next (record s {
  items = reclaim_items p (s.panes p).connection_descriptor s.items;
  scan_floor = 0;
  log = reverse (map item_updated (r ∷ rs)) ++ s.log;
})

-- tryReclaimPendingItems
unfoldable pub try_reclaim_pending_items : ℕ → TransferManager → TransferManager
unfolding is_unconnected reclaimed reclaim_in
try_reclaim_pending_items p s =
    if is_unconnected (s.panes p).connection_descriptor
    then s
    else reclaim_in p (reclaimed p (s.panes p).connection_descriptor s.items) s
