-- ===== src/Queue/Runs.antt =====
-- Two panes, and runs of the queue over them.
use zephyrftp.Base.{ℕ, zero, false, List, [], ◌∷◌, none, some}
use zephyrftp.Base.Text.{codes}
use zephyrftp.Backends.Protocol.{no_connection, Protocol}
use zephyrftp.Backends.Identity.{Backend, local, sftp}
use zephyrftp.Queue.Panes.{Pane}
use zephyrftp.Queue.State.{TransferManager}
use zephyrftp.Queue.Events.{Event, Reachable, fresh, after, file_dropped, exists_checked}
use zephyrftp.Paths.{join_path, file_name}
use zephyrftp.Backends.Identity.{is_local_filesystem, connection_identity}
use zephyrftp.Backends.Protocol.{
  default_port_for, supports_key_auth, protocol_to_key, protocol_from_key, protocol_eq,
  is_unconnected,
}
use zephyrftp.Base.Text.{text_eq, ends_with, starts_with, show_ℕ}
use zephyrftp.Base.Maps.{lookup, insert, erase}
use zephyrftp.Queue.Item.{new_item}
use zephyrftp.Queue.Panes.{
  has_transfer_pool, first_idle, build, grow_pool, pick_idle_transfer_backend,
}
use zephyrftp.Queue.Lookup.{
  required_by, required_backends_for_dispatch, pool_pane_by, claims, is_claimed, any_busy,
  active_index_for_executor, active_index_for_item, has_key, drop_key, destination_reservation_key,
  reservation_key_at, release_active_transfer, index_of_id, temp_file_path_with, cleaned_item,
  cleanup_effects,
}
use zephyrftp.Queue.Dispatch.{
  bind_picked, bind_from_pool, bind_backend, must_wait, claim, check_backend, send_check, commit,
  admit, visit, scan, skip_resolved, advance_floor, reset_resolutions, start_next_fuel, start_next,
  any_free, start_next_if_likely_to_dispatch,
}
use zephyrftp.Queue.Execute.{
  transfer_call, prepared, started_item, failed_dispatch_item, fail_dispatch, run_on, execute,
  start_item, dispatch_entry, dispatch_active_item,
}
use zephyrftp.Queue.Enqueue.{
  append_item, direction_between, enqueued_item, enqueue, external_item, enqueue_external_upload,
  check_folder, enqueue_folder, enqueue_external_folder, move_eligible, request_move,
  edit_download_item, start_edit_download, edit_upload_item, start_edit_upload, verification_item,
  start_verification_download, create_directories, enqueue_files, enqueue_external_files,
  count_files, start_folder_file_transfers, start_external_folder_file_transfers,
}
use zephyrftp.Queue.Controls.{
  cancelled_item, cancel_active, cancel_waiting, cancel_at, cancel_item, restarted_item, retry_at,
  retry_item, clear_one, clear_items, pause_entry, pause_item, resumed_item, resume_item,
}
use zephyrftp.Queue.Replies.{
  start_enumeration, move_item, dispatch_move_entry, maybe_reset_move, refuse_merge, skip_move,
  skipped_item, skip_file, conclude_conflict, resolution_of, remember, settle_conflict,
  resolve_conflict, folder_checked, move_checked, file_checked, handle_exists_checked,
  on_destination_exists_checked, run_frame, run_frames, answer_conflict,
}
use zephyrftp.Queue.Signals.{
  with_executor, progressed_item, progress_entry, on_backend_progress, staged_item, finished_item,
  finish_entry, on_backend_finished, failed_item, fail_entry, on_backend_failed, paused_item,
  pause_running, on_backend_paused, settle_move, move_done, move_failed, on_entry_moved,
  on_entry_move_failed,
}
use zephyrftp.Queue.Persist.{
  is_persisted_direction, is_persisted_status, persisted_item, lacks_connection, persisted_items,
  save_queue_for_shutdown, restored_item, restore_one, restore_all, restore_persisted_queue,
  same_connection, reclaimed_item, reclaim_one, reclaim_items, reclaimed, reclaim_in,
  try_reclaim_pending_items,
}
use zephyrftp.Queue.State.{new_manager}
use zephyrftp.Queue.Events.{change_pane, step}

abbrev pub local_pane : Pane
local_pane = record {
  backend = 0;
  current_directory = codes "/home";
  connection_descriptor = no_connection;
  pool_backends = [];
  max_pool_size = 1;
  pool_factory = none;
}

abbrev pub remote_pane : Pane
remote_pane = record {
  backend = 1;
  current_directory = codes "/srv";
  connection_descriptor = record {
    saved_site_id = [];
    protocol = Protocol.sftp;
    host = codes "example.org";
    port = 22;
    username = codes "ann";
  };
  pool_backends = [];
  max_pool_size = 3;
  pool_factory = some (5 ∷ 6 ∷ []);
}

abbrev pub two_panes : ℕ → Pane
two_panes zero = local_pane
two_panes _ = remote_pane

abbrev pub two_backends : ℕ → Backend
two_backends zero = local
two_backends _ = sftp (codes "ann") (codes "example.org") 22

-- A fresh queue over the two panes, and what a run of events makes of it. Naming `run` opens all
-- that the handlers call.
unfoldable pub run : List Event → TransferManager
unfolding join_path file_name is_local_filesystem connection_identity default_port_for
    supports_key_auth protocol_to_key protocol_from_key protocol_eq is_unconnected text_eq ends_with
    starts_with show_ℕ lookup insert erase new_item has_transfer_pool first_idle build grow_pool
    pick_idle_transfer_backend required_by required_backends_for_dispatch pool_pane_by claims
    is_claimed any_busy active_index_for_executor active_index_for_item has_key drop_key
    destination_reservation_key reservation_key_at release_active_transfer index_of_id
    temp_file_path_with cleaned_item cleanup_effects transfer_call prepared started_item
    failed_dispatch_item fail_dispatch run_on execute start_item dispatch_entry dispatch_active_item
    bind_picked bind_from_pool bind_backend must_wait claim check_backend send_check commit admit
    visit scan skip_resolved advance_floor reset_resolutions start_next_fuel start_next any_free
    start_next_if_likely_to_dispatch append_item direction_between enqueued_item enqueue
    external_item enqueue_external_upload check_folder enqueue_folder enqueue_external_folder
    move_eligible request_move edit_download_item start_edit_download edit_upload_item
    start_edit_upload verification_item start_verification_download create_directories enqueue_files
    enqueue_external_files count_files start_folder_file_transfers
    start_external_folder_file_transfers cancelled_item cancel_active cancel_waiting cancel_at
    cancel_item restarted_item retry_at retry_item clear_one clear_items pause_entry pause_item
    resumed_item resume_item start_enumeration move_item dispatch_move_entry maybe_reset_move
    refuse_merge skip_move skipped_item skip_file conclude_conflict resolution_of remember
    settle_conflict resolve_conflict folder_checked move_checked file_checked handle_exists_checked
    on_destination_exists_checked run_frame run_frames answer_conflict with_executor progressed_item
    progress_entry on_backend_progress staged_item finished_item finish_entry on_backend_finished
    failed_item fail_entry on_backend_failed paused_item pause_running on_backend_paused settle_move
    move_done move_failed on_entry_moved on_entry_move_failed is_persisted_direction
    is_persisted_status persisted_item lacks_connection persisted_items save_queue_for_shutdown
    restored_item restore_one restore_all restore_persisted_queue same_connection reclaimed_item
    reclaim_one reclaim_items reclaimed reclaim_in try_reclaim_pending_items new_manager change_pane
    step
run [] = new_manager two_panes two_backends (codes "/tmp")
run (e ∷ es) = step e (run es)

pub run-Reachable : (es : List Event) → Reachable two_panes two_backends (codes "/tmp") (run es)
unfolding run
run-Reachable [] = fresh
run-Reachable (e ∷ es) = after e (run es) (run-Reachable es)

-- The newest event comes first: two files are dropped, and the first is not there yet.
abbrev pub two_uploads : List Event
two_uploads =
    exists_checked (record { path = []; exists = false; is_dir = false; request_id = 1 })
    ∷ (file_dropped 0 1 (codes "b.txt") false ∷ (file_dropped 0 1 (codes "a.txt") false ∷ []))
