-- ===== src/Queue/Events.antt =====
-- Everything that happens to the queue of transfer/TransferManager.cpp: the requests of the panes
-- and of the queue's window, the signals of the backends, and the answers to the conflict dialog.
use zephyrftp.Base.{ℕ, Bool, List, Option}
use zephyrftp.Base.Text.{Text}
use zephyrftp.Backends.Protocol.{ConnectionDescriptor}
use zephyrftp.Backends.Identity.{Backend}
use zephyrftp.Backends.Entry.{EnumeratedItem}
use zephyrftp.Queue.Panes.{Pane}
use zephyrftp.Queue.State.{TransferManager, DeferredExistsCheck, new_manager, set_pane}
use zephyrftp.Queue.Enqueue.{
  enqueue, enqueue_external_upload, enqueue_folder, enqueue_external_folder, request_move,
  start_edit_download, start_edit_upload, start_verification_download, start_folder_file_transfers,
  start_external_folder_file_transfers,
}
use zephyrftp.Queue.Controls.{cancel_item, retry_item, clear_items, pause_item, resume_item}
use zephyrftp.Queue.Replies.{on_destination_exists_checked, answer_conflict}
use zephyrftp.Queue.Signals.{
  on_backend_progress, on_backend_finished, on_backend_failed, on_backend_paused, on_entry_moved,
  on_entry_move_failed,
}
use zephyrftp.Queue.Store.{PersistedTransferItem}
use zephyrftp.Queue.Persist.{restore_persisted_queue, try_reclaim_pending_items}

pub data Event : Type 0 where
  file_dropped : ℕ → ℕ → Text → Bool → Event
  external_file_dropped : ℕ → Text → Text → Bool → Event
  folder_dropped : ℕ → ℕ → Text → Event
  external_folder_dropped : ℕ → Text → Text → Event
  folder_enumerated : ℕ → ℕ → Text → List EnumeratedItem → Bool → Event
  external_folder_enumerated : ℕ → Text → Text → List EnumeratedItem → Bool → Event
  move_asked : Bool → ℕ → ℕ → Text → Event
  edit_opened : ℕ → Text → Event
  edit_saved : ℕ → Text → Text → Text → Event
  verification_asked : ℕ → Text → Text → Event
  cancel_asked retry_asked pause_asked resume_asked : ℕ → Event
  clear_asked : List ℕ → Event
  exists_checked : DeferredExistsCheck → Event
  conflict_answered : Bool → Bool → Event
  progressed : ℕ → ℕ → ℕ → Option ℕ → Event
  transfer_finished : ℕ → Event
  transfer_failed : ℕ → Text → Event
  transfer_paused : ℕ → ℕ → Event
  moved : ℕ → Event
  move_refused : Text → ℕ → Event
  queue_restored : ℕ → List PersistedTransferItem → Event
  pane_connected : ℕ → Event
  pane_changed : ℕ → Text → ConnectionDescriptor → Event

-- A pane shows another directory, or learns what it is connected to.
unfoldable pub change_pane : ℕ → Text → ConnectionDescriptor → TransferManager → TransferManager
change_pane p directory d s = record s {
  panes =
      set_pane p (record (s.panes p) { current_directory = directory; connection_descriptor = d })
        s.panes;
}

unfoldable pub step : Event → TransferManager → TransferManager
unfolding change_pane
step (file_dropped source dest name assume_overwrite) = enqueue source dest name assume_overwrite
step (external_file_dropped dest path name assume_overwrite) =
    enqueue_external_upload dest path name assume_overwrite
step (folder_dropped source dest name) = enqueue_folder source dest name
step (external_folder_dropped dest root name) = enqueue_external_folder dest root name
step (folder_enumerated source dest folder items root_exists) =
    start_folder_file_transfers source dest folder items root_exists
step (external_folder_enumerated dest parent folder items root_exists) =
    start_external_folder_file_transfers dest parent folder items root_exists
step (move_asked is_folder source dest name) = request_move is_folder source dest name
step (edit_opened source name) = start_edit_download source name
step (edit_saved dest local_path remote_path name) =
    start_edit_upload dest local_path remote_path name
step (verification_asked source path name) = start_verification_download source path name
step (cancel_asked id) = cancel_item id
step (retry_asked id) = retry_item id
step (pause_asked id) = pause_item id
step (resume_asked id) = resume_item id
step (clear_asked ids) = clear_items ids
step (exists_checked d) = on_destination_exists_checked d
step (conflict_answered proceed apply_to_all) = answer_conflict proceed apply_to_all
step (progressed b done total sample) = on_backend_progress b done total sample
step (transfer_finished b) = on_backend_finished b
step (transfer_failed b reason) = on_backend_failed b reason
step (transfer_paused b done) = on_backend_paused b done
step (moved request) = on_entry_moved request
step (move_refused reason request) = on_entry_move_failed reason request
step (queue_restored executor es) = restore_persisted_queue executor es
step (pane_connected p) = try_reclaim_pending_items p
step (pane_changed p directory d) = change_pane p directory d

-- The states that a fresh queue reaches, in whatever order things happen.
pub data Reachable (panes : ℕ → Pane) (backends : ℕ → Backend) (staging : Text)
    : TransferManager → Type 0 where
  fresh : Reachable panes backends staging (new_manager panes backends staging)
  after :
      (e : Event) (s : TransferManager)
      → Reachable panes backends staging s
      → Reachable panes backends staging (step e s)
