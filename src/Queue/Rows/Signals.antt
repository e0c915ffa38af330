-- ===== src/Queue/Rows/Signals.antt =====
-- The signals of the backends, the restart and every event, for predicates of the rows.
use zephyrftp.Base.{
  ℕ, ◌≡◌, refl, ◌&&◌, List, [], ◌∷◌, ◌++◌, Option, some, arith, option-elim, if-elim, get_elem?,
  set,
}
use zephyrftp.Base.Text.{Text}
use zephyrftp.Base.Maps.{lookup, erase}
use zephyrftp.Backends.Identity.{Backend}
use zephyrftp.Queue.Panes.{Pane}
use zephyrftp.Queue.Item.{
  TransferItem, TransferDirection, TransferStatus, is_remote_to_remote, is_downloading, reported,
}
use zephyrftp.Queue.State.{
  TransferManager, ActiveTransfer, item_updated, transfer_succeeded, new_manager,
}
use zephyrftp.Queue.Lookup.{
  active_index_for_executor, index_of_id, cleaned_item, cleanup_effects, release_active_transfer,
}
use zephyrftp.Queue.Dispatch.{start_next}
use zephyrftp.Queue.Execute.{dispatch_active_item}
use zephyrftp.Queue.Enqueue.{enqueue_folder, enqueue_external_folder, check_folder}
use zephyrftp.Queue.Replies.{maybe_reset_move}
use zephyrftp.Queue.Signals.{
  with_executor, progressed_item, progress_entry, on_backend_progress, staged_item, finished_item,
  finish_entry, on_backend_finished, failed_item, fail_entry, on_backend_failed, paused_item,
  pause_running, on_backend_paused, settle_move, move_done, move_failed, on_entry_moved,
  on_entry_move_failed,
}
use zephyrftp.Queue.Store.{PersistedTransferItem}
use zephyrftp.Queue.Persist.{
  restored_item, restore_one, restore_all, restore_persisted_queue, reclaimed, reclaim_in,
  try_reclaim_pending_items,
}
use zephyrftp.Queue.Events.{
  Event, step, change_pane, Reachable, fresh, after, file_dropped, external_file_dropped,
  folder_dropped, external_folder_dropped, folder_enumerated, external_folder_enumerated,
  move_asked, edit_opened, edit_saved, verification_asked, cancel_asked, retry_asked, pause_asked,
  resume_asked, clear_asked, exists_checked, conflict_answered, progressed, transfer_finished,
  transfer_failed, transfer_paused, moved, move_refused, queue_restored, pane_connected,
  pane_changed,
}
use zephyrftp.Queue.Rows.Closed.{Predicate, IsAt, IsClosed}
use zephyrftp.Queue.Rows.Scans.{
  IsKept, end-IsAt, release-IsKept, start_next-IsKept, dispatch_active-IsKept,
}
use zephyrftp.Queue.Rows.Operations.{
  append_item-IsKept, enqueue-IsKept, enqueue_external-IsKept, request_move-IsKept,
  start_edit_download-IsKept, start_edit_upload-IsKept, start_verification-IsKept,
  folder_files-IsKept, external_folder_files-IsKept, cancel_item-IsKept, retry_item-IsKept,
  clear_items-IsKept, pause_item-IsKept, resume_item-IsKept,
}
use zephyrftp.Queue.Rows.Replies.{reset_move-IsKept, exists_checked-IsKept, answer-IsKept}

module _ (P : Predicate) (c : IsClosed P) where
  with_executor-IsKept :
      (b : ℕ) (handler : ℕ → ActiveTransfer → TransferItem → TransferManager → TransferManager)
      → ((k : ℕ) (a : ActiveTransfer) (item : TransferItem) (s : TransferManager)
          → get_elem? s.items a.item_index ≡ some item
          → IsAt P s
          → IsAt P (handler k a item s))
      → IsKept P (with_executor b handler)
  unfolding with_executor
  with_executor-IsKept b handler f s h =
      option-elim (IsAt P) (active_index_for_executor s.active b) _ _ (λ _. h)
        (λ k _.
          option-elim (IsAt P) (get_elem? s.active k) _ _ (λ _. h)
            (λ a _.
              option-elim (IsAt P) (get_elem? s.items a.item_index) _ _ (λ _. h)
                (λ item g. f k a item s g h)))

  progress-IsKept :
      (b done total : ℕ) (sample : Option ℕ) → IsKept P (on_backend_progress b done total sample)
  unfolding on_backend_progress progress_entry progressed_item
  progress-IsKept b done total sample =
      with_executor-IsKept b (progress_entry done total sample) (λ k a item s e h.
        c.change s.items s.scan_floor s.index_by_id s.next_id a.item_index item
          (progressed_item done total sample item) e refl (ground arith) h)

  finish_entry-IsKept :
      (k : ℕ) (a : ActiveTransfer) (item : TransferItem) (s : TransferManager)
      → get_elem? s.items a.item_index ≡ some item
      → IsAt P s
      → IsAt P (finish_entry k a item s)
  unfolding finish_entry
  finish_entry-IsKept k a item s e h =
      let staged = record s {
        items = set s.items a.item_index (staged_item item);
        log = item_updated (staged_item item) ∷ s.log;
      } in
      if-elim (IsAt P) (is_remote_to_remote item.direction && is_downloading item.phase)
        (dispatch_active_item start_next a.item_index staged)
        (start_next (
          release_active_transfer k (record s {
            items = set s.items a.item_index (finished_item item);
            log =
                transfer_succeeded
                ∷ (item_updated (finished_item item) ∷ (cleanup_effects item ++ s.log));
          })))
        (λ _. dispatch_active-IsKept P c a.item_index staged (
          c.change s.items s.scan_floor s.index_by_id s.next_id a.item_index item (staged_item item)
            e (unfold staged_item in refl) (unfold staged_item in ground arith) h))
        (λ _. start_next-IsKept P c _ (
          release-IsKept P c k _ (
            end-IsAt P c a.item_index item (finished_item item) s e
              (unfold finished_item cleaned_item in ground arith)
              (unfold finished_item cleaned_item in ground arith) h)))

  finished-IsKept : (b : ℕ) → IsKept P (on_backend_finished b)
  unfolding on_backend_finished
  finished-IsKept b = with_executor-IsKept b finish_entry finish_entry-IsKept

  failed-IsKept : (b : ℕ) (reason : Text) → IsKept P (on_backend_failed b reason)
  unfolding on_backend_failed fail_entry
  failed-IsKept b reason = with_executor-IsKept b (fail_entry reason) (λ k a item s e h.
      start_next-IsKept P c _ (
        release-IsKept P c k _ (
          end-IsAt P c a.item_index item (failed_item a.cancelled reason item) s e
            (unfold failed_item cleaned_item in ground arith)
            (unfold failed_item cleaned_item in ground arith) h)))

  paused-IsKept : (b done : ℕ) → IsKept P (on_backend_paused b done)
  unfolding on_backend_paused pause_running
  paused-IsKept b done = with_executor-IsKept b (pause_running done) (λ k a item s e h.
      start_next-IsKept P c _ (
        release-IsKept P c k _ (
          end-IsAt P c a.item_index item (paused_item done item) s e (unfold paused_item in refl)
            (unfold paused_item in refl) h)))

  settle_move-IsKept :
      (request : ℕ) (settle : ℕ → TransferItem → TransferManager → TransferManager)
      → ((i : ℕ) (item : TransferItem) (s : TransferManager)
          → get_elem? s.items i ≡ some item
          → IsAt P s
          → IsAt P (settle i item s))
      → IsKept P (settle_move request settle)
  unfolding settle_move
  settle_move-IsKept request settle f s h =
      option-elim (IsAt P) (lookup request s.pending_move_item_id) _ _ (λ _. h)
        (λ id _.
          let s₀ = record s { pending_move_item_id = erase request s.pending_move_item_id } in
          let h' = reset_move-IsKept P c s₀ h in
          option-elim (IsAt P) (index_of_id (maybe_reset_move s₀) id) _ _ (λ _. h')
            (λ i _.
              option-elim (IsAt P) (get_elem? (maybe_reset_move s₀).items i) _ _ (λ _. h')
                (λ item e. f i item (maybe_reset_move s₀) e h')))

  moved-IsKept : (request : ℕ) → IsKept P (on_entry_moved request)
  unfolding on_entry_moved move_done
  moved-IsKept request = settle_move-IsKept request move_done (λ i item s e h.
      end-IsAt P c i item (record item { status = TransferStatus.done }) s e refl refl h)

  move_failed-IsKept :
      (reason : Text) (request : ℕ) → IsKept P (on_entry_move_failed reason request)
  unfolding on_entry_move_failed move_failed
  move_failed-IsKept reason request =
      settle_move-IsKept request (move_failed reason) (λ i item s e h.
        end-IsAt P c i item
          (record item { status = TransferStatus.failed; error_message = reported reason }) s e refl
          refl h)

  restored_item_id :
      (next executor : ℕ) (d : TransferDirection) (e : PersistedTransferItem) (item : TransferItem)
      → restored_item next executor d e ≡ some item
      → item.id ≡ next
  unfolding restored_item
  restored_item_id next executor d e item r = ground arith

  restore_all-IsKept :
      (executor : ℕ) (es : List PersistedTransferItem) → IsKept P (restore_all executor es)
  unfolding restore_all restore_one
  restore_all-IsKept executor [] s h = h
  restore_all-IsKept executor (e ∷ es) s h =
      restore_all-IsKept executor es (restore_one executor e s) one
    where
      one : IsAt P (restore_one executor e s)
      one =
          option-elim (IsAt P) (restored_item s.next_id executor e.direction e) _ _
            (λ _. c.skip_id s.items s.scan_floor s.index_by_id s.next_id h)
            (λ item r.
              append_item-IsKept P c item s
                (restored_item_id s.next_id executor e.direction e item r) h)

  restore-IsKept :
      (executor : ℕ) (es : List PersistedTransferItem)
      → IsKept P (restore_persisted_queue executor es)
  unfolding restore_persisted_queue
  restore-IsKept executor [] s h = h
  restore-IsKept executor (e ∷ es) s h =
      start_next-IsKept P c (restore_all executor (e ∷ es) s)
        (restore_all-IsKept executor (e ∷ es) s h)

  reclaim_in-IsKept : (p : ℕ) (rs : List TransferItem) → IsKept P (reclaim_in p rs)
  unfolding reclaim_in
  reclaim_in-IsKept p [] s h = h
  reclaim_in-IsKept p (r ∷ rs) s h =
      start_next-IsKept P c _ (
        c.reclaim s.items s.scan_floor s.index_by_id s.next_id p (s.panes p).connection_descriptor
          h)

  reclaim-IsKept : (p : ℕ) → IsKept P (try_reclaim_pending_items p)
  unfolding try_reclaim_pending_items
  reclaim-IsKept p s h =
      if-elim (IsAt P) _ _ _ (λ _. h)
        (λ _. reclaim_in-IsKept p (reclaimed p (s.panes p).connection_descriptor s.items) s h)

  step-IsKept : (e : Event) → IsKept P (step e)
  unfolding step enqueue_folder enqueue_external_folder check_folder change_pane
  step-IsKept (file_dropped source dest name assume_overwrite) =
      enqueue-IsKept P c source dest name assume_overwrite
  step-IsKept (external_file_dropped dest path name assume_overwrite) =
      enqueue_external-IsKept P c dest path name assume_overwrite
  step-IsKept (folder_dropped source dest name) = λ s h. h
  step-IsKept (external_folder_dropped dest root name) = λ s h. h
  step-IsKept (folder_enumerated source dest folder items root_exists) =
      folder_files-IsKept P c source dest folder items root_exists
  step-IsKept (external_folder_enumerated dest parent folder items root_exists) =
      external_folder_files-IsKept P c dest parent folder items root_exists
  step-IsKept (move_asked is_folder source dest name) =
      request_move-IsKept P c is_folder source dest name
  step-IsKept (edit_opened source name) = start_edit_download-IsKept P c source name
  step-IsKept (edit_saved dest local_path remote_path name) =
      start_edit_upload-IsKept P c dest local_path remote_path name
  step-IsKept (verification_asked source path name) = start_verification-IsKept P c source path name
  step-IsKept (cancel_asked id) = cancel_item-IsKept P c id
  step-IsKept (retry_asked id) = retry_item-IsKept P c id
  step-IsKept (pause_asked id) = pause_item-IsKept P c id
  step-IsKept (resume_asked id) = resume_item-IsKept P c id
  step-IsKept (clear_asked ids) = clear_items-IsKept P c ids
  step-IsKept (exists_checked d) = exists_checked-IsKept P c d
  step-IsKept (conflict_answered proceed apply_to_all) = answer-IsKept P c proceed apply_to_all
  step-IsKept (progressed b done total sample) = progress-IsKept b done total sample
  step-IsKept (transfer_finished b) = finished-IsKept b
  step-IsKept (transfer_failed b reason) = failed-IsKept b reason
  step-IsKept (transfer_paused b done) = paused-IsKept b done
  step-IsKept (moved request) = moved-IsKept request
  step-IsKept (move_refused reason request) = move_failed-IsKept reason request
  step-IsKept (queue_restored executor es) = restore-IsKept executor es
  step-IsKept (pane_connected p) = reclaim-IsKept p
  step-IsKept (pane_changed p directory d) = λ s h. h

  -- A closed predicate that a fresh queue has is had by every state that it reaches.
  pub Reachable-IsAt :
      (panes : ℕ → Pane) (backends : ℕ → Backend) (staging : Text) (s : TransferManager)
      → P [] 0 [] 1
      → Reachable panes backends staging s
      → IsAt P s
  Reachable-IsAt panes backends staging _ h fresh = unfold new_manager in h
  Reachable-IsAt panes backends staging _ h (after e s r) =
      step-IsKept e s (Reachable-IsAt panes backends staging s h r)
