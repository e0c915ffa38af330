-- ===== src/Queue/Rows/Replies.antt =====
-- The answers to existence checks and to the conflict dialog, for predicates of the rows.
use zephyrftp.Base.{
  ℕ, refl, Bool, true, false, List, [], ◌∷◌, ◌++◌, map, none, inl, inr, Option-cases, option-elim,
  if-elim, if◌then◌else◌, get_elem?,
}
use zephyrftp.Base.Maps.{lookup, erase}
use zephyrftp.Queue.Item.{TransferStatus, cannot_merge}
use zephyrftp.Queue.State.{
  PendingFolder, PendingMove, DeferredExistsCheck, Conflict, Frame, ConflictResolution, ask,
  always_overwrite, always_skip, replay, conclude, folder_transfer_skipped, emit,
}
use zephyrftp.Queue.Lookup.{active_index_for_item}
use zephyrftp.Queue.Enqueue.{append_item}
use zephyrftp.Queue.Replies.{
  start_enumeration, move_item, dispatch_move_entry, maybe_reset_move, refuse_merge, skip_move,
  skipped_item, release_if_active, skip_file, conclude_conflict, resolution_of, remember,
  settle_conflict, resolve_conflict, folder_checked, move_checked, file_checked,
  handle_exists_checked, on_destination_exists_checked, run_frame, run_frames, answer_conflict,
}
use zephyrftp.Queue.Rows.Closed.{Predicate, IsAt, IsClosed}
use zephyrftp.Queue.Rows.Scans.{
  IsKept, end-IsAt, release-IsKept, start_next-IsKept, dispatch_active-IsKept,
}
use zephyrftp.Queue.Rows.Operations.{append_item-IsKept}

module _ (P : Predicate) (c : IsClosed P) where
  pub reset_move-IsKept : IsKept P maybe_reset_move
  unfolding maybe_reset_move
  reset_move-IsKept s h = if-elim (IsAt P) _ _ _ (λ _. h) (λ _. h)

  dispatch_move-IsKept : (m : PendingMove) → IsKept P (dispatch_move_entry m)
  unfolding dispatch_move_entry
  dispatch_move-IsKept m s h = append_item-IsKept P c (move_item s m) s (unfold move_item in refl) h

  refuse_merge-IsKept : (m : PendingMove) → IsKept P (refuse_merge m)
  unfolding refuse_merge
  refuse_merge-IsKept m s h =
      let item = record (move_item s m) {
        status = TransferStatus.failed;
        error_message = cannot_merge m.name;
      } in
      reset_move-IsKept (append_item item s)
        (append_item-IsKept P c item s (unfold move_item in refl) h)

  skip_move-IsKept : (m : PendingMove) → IsKept P (skip_move m)
  unfolding skip_move
  skip_move-IsKept m s h =
      reset_move-IsKept (if m.is_folder then emit (folder_transfer_skipped m.name) s else s)
        (if-elim (IsAt P) _ _ _ (λ _. h) (λ _. h))

  release_if-IsKept : (i : ℕ) → IsKept P (release_if_active i)
  release_if-IsKept i s h = elim (Option-cases (active_index_for_item s.active i)) [
    | inl n ↦ rw (n, release_if_active) h
    | inr (k, e) ↦ rw (e, release_if_active) (release-IsKept P c k s h)
  ]

  skip_file-IsKept : (i : ℕ) → IsKept P (skip_file i)
  unfolding skip_file
  skip_file-IsKept i s h =
      option-elim (IsAt P) (get_elem? s.items i) _ _ (λ _. h)
        (λ item e. start_next-IsKept P c _ (
          release_if-IsKept i _ (
            end-IsAt P c i item (skipped_item item) s e (unfold skipped_item in refl)
              (unfold skipped_item in refl) h)))

  conclude-IsKept : (d : Conflict) (proceed : Bool) → IsKept P (conclude_conflict d proceed)
  unfolding conclude_conflict start_enumeration
  conclude-IsKept (Conflict.folder p) true s h = h
  conclude-IsKept (Conflict.folder p) false s h = h
  conclude-IsKept (Conflict.move m) true s h =
      if-elim (IsAt P) _ _ _ (λ _. refuse_merge-IsKept m s h) (λ _. dispatch_move-IsKept m s h)
  conclude-IsKept (Conflict.move m) false s h = skip_move-IsKept m s h
  conclude-IsKept (Conflict.file i) true s h = dispatch_active-IsKept P c i s h
  conclude-IsKept (Conflict.file i) false s h = skip_file-IsKept i s h

  remember-IsKept : (d : Conflict) (proceed : Bool) → IsKept P (remember d proceed)
  unfolding remember
  remember-IsKept (Conflict.folder p) proceed s h = h
  remember-IsKept (Conflict.move m) proceed s h = if-elim (IsAt P) _ _ _ (λ _. h) (λ _. h)
  remember-IsKept (Conflict.file i) proceed s h = h

  settle-IsKept : (r : ConflictResolution) (d : Conflict) → IsKept P (settle_conflict r d)
  unfolding settle_conflict
  settle-IsKept always_overwrite d s h = conclude-IsKept d true s h
  settle-IsKept always_skip d s h = conclude-IsKept d false s h
  settle-IsKept ask d s h = h

  resolve-IsKept : (d : Conflict) → IsKept P (resolve_conflict d)
  unfolding resolve_conflict
  resolve-IsKept d s h = settle-IsKept (resolution_of d s) d s h

  folder_checked-IsKept :
      (request : ℕ) (p : PendingFolder) (exists : Bool) → IsKept P (folder_checked request p exists)
  unfolding folder_checked start_enumeration
  folder_checked-IsKept request p exists s h =
      if-elim (IsAt P) exists _ _
        (λ _.
          resolve-IsKept (Conflict.folder p)
            (record s {
              pending_folder_conflict_checks = erase request s.pending_folder_conflict_checks;
            })
            h)
        (λ _. h)

  move_checked-IsKept :
      (request : ℕ) (m : PendingMove) (exists : Bool) → IsKept P (move_checked request m exists)
  unfolding move_checked
  move_checked-IsKept request m exists s h =
      let s' = record s {
        pending_move_conflict_checks = erase request s.pending_move_conflict_checks;
      } in
      if-elim (IsAt P) exists _ _ (λ _. resolve-IsKept (Conflict.move m) s' h)
        (λ _. dispatch_move-IsKept m s' h)

  file_checked-IsKept : (request i : ℕ) (exists : Bool) → IsKept P (file_checked request i exists)
  unfolding file_checked
  file_checked-IsKept request i exists s h =
      let s' = record s {
        pending_file_conflict_checks = erase request s.pending_file_conflict_checks;
      } in
      option-elim (IsAt P) (get_elem? s.items i) _ _ (λ _. h)
        (λ item _.
          option-elim (IsAt P) (active_index_for_item s.active i) _ _ (λ _. h)
            (λ k _.
              if-elim (IsAt P) exists _ _ (λ _. resolve-IsKept (Conflict.file i) s' h)
                (λ _. dispatch_active-IsKept P c i s' h)))

  handle-IsKept : (d : DeferredExistsCheck) → IsKept P (handle_exists_checked d)
  unfolding handle_exists_checked
  handle-IsKept d s h =
      option-elim (IsAt P) (lookup d.request_id s.pending_folder_conflict_checks) _ _
        (λ _.
          option-elim (IsAt P) (lookup d.request_id s.pending_move_conflict_checks) _ _
            (λ _.
              option-elim (IsAt P) (lookup d.request_id s.pending_file_conflict_checks) _ _ (λ _. h)
                (λ i _. file_checked-IsKept d.request_id i d.exists s h))
            (λ m _. move_checked-IsKept d.request_id m d.exists s h))
        (λ p _. folder_checked-IsKept d.request_id p d.exists s h)

  pub exists_checked-IsKept : (d : DeferredExistsCheck) → IsKept P (on_destination_exists_checked d)
  unfolding on_destination_exists_checked
  exists_checked-IsKept d s h =
      option-elim (IsAt P) s.dialog _ _ (λ _. handle-IsKept d s h) (λ x _. h)

  run_frame-IsKept : (f : Frame) → IsKept P (run_frame f)
  unfolding run_frame
  run_frame-IsKept (replay d) s h = exists_checked-IsKept d s h
  run_frame-IsKept (conclude d proceed) s h = conclude-IsKept d proceed s h

  run_frames-IsKept : (fs : List Frame) → IsKept P (run_frames fs)
  unfolding run_frames
  run_frames-IsKept [] s h = h
  run_frames-IsKept (f ∷ fs) s h =
      let h' = run_frame-IsKept f s h in
      option-elim (IsAt P) (run_frame f s).dialog _ _ (λ _. run_frames-IsKept fs (run_frame f s) h')
        (λ x _. h')

  pub answer-IsKept :
      (proceed apply_to_all : Bool) → IsKept P (answer_conflict proceed apply_to_all)
  unfolding answer_conflict
  answer-IsKept proceed apply_to_all s h =
      option-elim (IsAt P) s.dialog _ _ (λ _. h)
        (λ d _.
          let s' = if apply_to_all then remember d proceed s else s in
          (run_frames-IsKept (map replay s.deferred_exists_checks ++ (conclude d proceed ∷ s.stack))
            (record s' { dialog = none; stack = []; deferred_exists_checks = [] })
            (if-elim (IsAt P) apply_to_all (remember d proceed s) s
              (λ _. remember-IsKept d proceed s h) (λ _. h))))
