-- ===== src/Queue/Claims/Stepping.antt =====
-- Whatever happens to the queue keeps the invariant.
use zephyrftp.Base.{ℕ, refl, inr}
use zephyrftp.Base.Text.{Text}
use zephyrftp.Backends.Protocol.{ConnectionDescriptor}
use zephyrftp.Backends.Identity.{Backend}
use zephyrftp.Queue.Panes.{Pane}
use zephyrftp.Queue.State.{TransferManager, new_manager}
use zephyrftp.Queue.Enqueue.{enqueue_folder, enqueue_external_folder}
use zephyrftp.Queue.Events.{
  Event, step, change_pane, Reachable, fresh, after, file_dropped, external_file_dropped,
  folder_dropped, external_folder_dropped, folder_enumerated, external_folder_enumerated,
  move_asked, edit_opened, edit_saved, verification_asked, cancel_asked, retry_asked, pause_asked,
  resume_asked, clear_asked, exists_checked, conflict_answered, progressed, transfer_finished,
  transfer_failed, transfer_paused, moved, move_refused, queue_restored, pane_connected,
  pane_changed,
}
use zephyrftp.Queue.Claims.Dispatching.{InvOf, Safe}
use zephyrftp.Queue.Claims.Binding.{InvOf-set_pane}
use zephyrftp.Queue.Claims.Adding.{
  KeepsSafe, enqueue-KeepsSafe, enqueue_external_upload-KeepsSafe, request_move-KeepsSafe,
  start_edit_download-KeepsSafe, start_edit_upload-KeepsSafe, start_verification_download-KeepsSafe,
  start_folder_file_transfers-KeepsSafe, start_external_folder_file_transfers-KeepsSafe,
}
use zephyrftp.Queue.Claims.Controlling.{
  retry_item-KeepsSafe, clear_items-KeepsSafe, pause_item-KeepsSafe, resume_item-KeepsSafe,
}
use zephyrftp.Queue.Claims.Cancelling.{Safe-step, cancel_item-KeepsSafe}
use zephyrftp.Queue.Claims.Answering.{
  on_destination_exists_checked-KeepsSafe, answer_conflict-KeepsSafe,
}
use zephyrftp.Queue.Claims.Signalling.{
  on_backend_progress-KeepsSafe, on_backend_finished-KeepsSafe, on_backend_failed-KeepsSafe,
  on_backend_paused-KeepsSafe,
}
use zephyrftp.Queue.Claims.Moved.{on_entry_moved-KeepsSafe, on_entry_move_failed-KeepsSafe}
use zephyrftp.Queue.Claims.Restoring.{
  restore_persisted_queue-KeepsSafe, try_reclaim_pending_items-KeepsSafe,
}

change_pane-KeepsSafe :
    (p : ℕ) (directory : Text) (d : ConnectionDescriptor) → KeepsSafe (change_pane p directory d)
unfolding change_pane
change_pane-KeepsSafe p directory d s h =
    Safe-step s (change_pane p directory d s) refl
      (InvOf-set_pane p
        (record (s.panes p) { current_directory = directory; connection_descriptor = d }) s refl)
      h

pub step-KeepsSafe : (e : Event) → KeepsSafe (step e)
unfolding step enqueue_folder enqueue_external_folder
step-KeepsSafe (file_dropped source dest name assume_overwrite) =
    enqueue-KeepsSafe source dest name assume_overwrite
step-KeepsSafe (external_file_dropped dest path name assume_overwrite) =
    enqueue_external_upload-KeepsSafe dest path name assume_overwrite
step-KeepsSafe (folder_dropped source dest name) = λ s h. h
step-KeepsSafe (external_folder_dropped dest root name) = λ s h. h
step-KeepsSafe (folder_enumerated source dest folder items root_exists) =
    start_folder_file_transfers-KeepsSafe source dest folder items root_exists
step-KeepsSafe (external_folder_enumerated dest parent folder items root_exists) =
    start_external_folder_file_transfers-KeepsSafe dest parent folder items root_exists
step-KeepsSafe (move_asked is_folder source dest name) =
    request_move-KeepsSafe is_folder source dest name
step-KeepsSafe (edit_opened source name) = start_edit_download-KeepsSafe source name
step-KeepsSafe (edit_saved dest local_path remote_path name) =
    start_edit_upload-KeepsSafe dest local_path remote_path name
step-KeepsSafe (verification_asked source path name) =
    start_verification_download-KeepsSafe source path name
step-KeepsSafe (cancel_asked id) = cancel_item-KeepsSafe id
step-KeepsSafe (retry_asked id) = retry_item-KeepsSafe id
step-KeepsSafe (pause_asked id) = pause_item-KeepsSafe id
step-KeepsSafe (resume_asked id) = resume_item-KeepsSafe id
step-KeepsSafe (clear_asked ids) = clear_items-KeepsSafe ids
step-KeepsSafe (exists_checked d) = on_destination_exists_checked-KeepsSafe d
step-KeepsSafe (conflict_answered proceed apply_to_all) =
    answer_conflict-KeepsSafe proceed apply_to_all
step-KeepsSafe (progressed b done total sample) = on_backend_progress-KeepsSafe b done total sample
step-KeepsSafe (transfer_finished b) = on_backend_finished-KeepsSafe b
step-KeepsSafe (transfer_failed b reason) = on_backend_failed-KeepsSafe b reason
step-KeepsSafe (transfer_paused b done) = on_backend_paused-KeepsSafe b done
step-KeepsSafe (moved request) = on_entry_moved-KeepsSafe request
step-KeepsSafe (move_refused reason request) = on_entry_move_failed-KeepsSafe reason request
step-KeepsSafe (queue_restored executor es) = restore_persisted_queue-KeepsSafe executor es
step-KeepsSafe (pane_connected p) = try_reclaim_pending_items-KeepsSafe p
step-KeepsSafe (pane_changed p directory d) = change_pane-KeepsSafe p directory d

new_manager-InvOf :
    (panes : ℕ → Pane) (backends : ℕ → Backend) (staging : Text)
    → InvOf (new_manager panes backends staging)
unfolding new_manager
new_manager-InvOf panes backends staging = record {
  exclusive = tt;
  distinct_items = tt;
  distinct_keys = tt;
  held = tt;
  owned = tt;
  sound = tt;
  moving = tt;
}

pub Reachable-Safe :
    (panes : ℕ → Pane) (backends : ℕ → Backend) (staging : Text) (s : TransferManager)
    → Reachable panes backends staging s
    → Safe s
Reachable-Safe panes backends staging _ fresh = inr (new_manager-InvOf panes backends staging)
Reachable-Safe panes backends staging _ (after e s r) =
    step-KeepsSafe e s (Reachable-Safe panes backends staging s r)
