-- ===== src/Queue/Tests.antt =====
-- Concrete runs of the queue.
use zephyrftp.Base.{◌<◌, ◌≡◌, refl, false, List, [], ◌∷◌, none, some, ◌≢◌, arith}
use zephyrftp.Base.Text.{codes}
use zephyrftp.Queue.State.{ActiveTransfer}
use zephyrftp.Queue.Events.{Event, transfer_finished}
use zephyrftp.Queue.Item.{new_item, is_queued, TransferItem, TransferDirection, TransferStatus}
use zephyrftp.Queue.Lookup.{claims, index_of_id}
use zephyrftp.Queue.Claims.Reached.{
  backend_claimed_once, destination_reserved_once, item_active_once, IsHeld, active_transfer-IsHeld,
}
use zephyrftp.Queue.Rows.Floor.{queued_at_or_above_floor}
use zephyrftp.Queue.Dispatch.{scan, advance_floor, reset_resolutions, start_next}
use zephyrftp.Queue.Rows.Whole.{start_next_scans_all}
use zephyrftp.Queue.Rows.Ids.{row_found_by_id}
use zephyrftp.Queue.Runs.{two_panes, two_backends, run, run-Reachable, two_uploads}

-- The first upload runs on the primary connection, the second waits for its check on one of the pool.
abbrev first_transfer : ActiveTransfer
first_transfer = record {
  item_index = 0;
  claimed_backends = some 1 ∷ [];
  current_executor = some 1;
  cancelled = false;
  reserved_destination_key = codes "sftp://ann@example.org:22\n/srv/a.txt";
}

abbrev second_transfer : ActiveTransfer
second_transfer = record {
  item_index = 1;
  claimed_backends = some 5 ∷ [];
  current_executor = none;
  cancelled = false;
  reserved_destination_key = codes "sftp://ann@example.org:22\n/srv/b.txt";
}

two_uploads-active : (run two_uploads).active ≡ first_transfer ∷ (second_transfer ∷ [])
unfolding run
two_uploads-active = refl

backend_claimed_once_example : claims 1 second_transfer.claimed_backends ≡ false
unfolding run
backend_claimed_once_example =
    backend_claimed_once two_panes two_backends (codes "/tmp") (run two_uploads) 0 1 1
      first_transfer second_transfer (run-Reachable two_uploads) refl refl refl (ground arith) refl

destination_reserved_once_example :
    first_transfer.reserved_destination_key ≢ second_transfer.reserved_destination_key
unfolding run
destination_reserved_once_example =
    destination_reserved_once two_panes two_backends (codes "/tmp") (run two_uploads) 0 1
      first_transfer second_transfer (run-Reachable two_uploads) refl refl refl (ground arith) refl

item_active_once_example : first_transfer.item_index ≢ second_transfer.item_index
unfolding run
item_active_once_example =
    item_active_once two_panes two_backends (codes "/tmp") (run two_uploads) 0 1 first_transfer
      second_transfer (run-Reachable two_uploads) refl refl refl (ground arith)

active_transfer-IsHeld_example : IsHeld (run two_uploads) second_transfer
unfolding run
active_transfer-IsHeld_example =
    active_transfer-IsHeld two_panes two_backends (codes "/tmp") (run two_uploads) 1 second_transfer
      (run-Reachable two_uploads) refl refl

-- The first upload is through: its row is Completed, and the scan begins behind it.
abbrev one_finished : List Event
one_finished = transfer_finished 1 ∷ two_uploads

abbrev first_row : TransferItem
first_row = record (new_item 1) {
  file_name = codes "a.txt";
  source_path = codes "/home/a.txt";
  dest_path = codes "/srv/a.txt";
  direction = TransferDirection.local_to_remote;
  status = TransferStatus.done;
  source_pane = some 0;
  dest_pane = some 1;
}

queued_at_or_above_floor_example : is_queued first_row.status ≡ false
unfolding run
queued_at_or_above_floor_example =
    queued_at_or_above_floor two_panes two_backends (codes "/tmp") (run one_finished)
      (run-Reachable one_finished) 0 first_row refl (ground arith)

start_next_scans_all_example :
    start_next (run one_finished)
    ≡ reset_resolutions (advance_floor (scan start_next 2 0 (run one_finished)))
unfolding run
start_next_scans_all_example =
    start_next_scans_all two_panes two_backends (codes "/tmp") (run one_finished)
      (run-Reachable one_finished)

row_found_by_id_example :
    (index_of_id (run one_finished) first_row.id ≡ some 0) × (first_row.id < 3)
unfolding run
row_found_by_id_example =
    row_found_by_id two_panes two_backends (codes "/tmp") (run one_finished)
      (run-Reachable one_finished) 0 first_row refl
