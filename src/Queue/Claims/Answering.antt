-- ===== src/Queue/Claims/Answering.antt =====
-- The answers to existence checks, the conflict dialog and the moves keep the invariant.
use zephyrftp.Base.{
  ℕ, Bool, true, false, List, [], ◌∷◌, ◌++◌, map, none, option-elim, if-elim, get_elem?,
  if◌then◌else◌,
}
use zephyrftp.Base.Maps.{lookup, erase}
use zephyrftp.Queue.State.{
  PendingFolder, PendingMove, DeferredExistsCheck, Conflict, Frame, ConflictResolution, ask,
  always_overwrite, always_skip, replay, conclude,
}
use zephyrftp.Queue.Lookup.{active_index_for_item}
use zephyrftp.Queue.Replies.{
  conclude_conflict, resolution_of, remember, settle_conflict, resolve_conflict, folder_checked,
  move_checked, file_checked, handle_exists_checked, on_destination_exists_checked, run_frame,
  run_frames, answer_conflict,
}
use zephyrftp.Queue.Claims.Dispatching.{Safe}
use zephyrftp.Queue.Claims.Adding.{KeepsSafe}
use zephyrftp.Queue.Claims.Pending.{
  start_enumeration-KeepsSafe, dispatch_move_entry-KeepsSafe, refuse_merge-KeepsSafe,
  skip_move-KeepsSafe, skip_file-KeepsSafe, dispatch-KeepsSafe,
}

conclude_conflict-KeepsSafe :
    (c : Conflict) (proceed : Bool) → KeepsSafe (conclude_conflict c proceed)
unfolding conclude_conflict
conclude_conflict-KeepsSafe (Conflict.folder p) true s h = start_enumeration-KeepsSafe p true s h
conclude_conflict-KeepsSafe (Conflict.folder p) false s h = h
conclude_conflict-KeepsSafe (Conflict.move m) true s h =
    if-elim Safe _ _ _ (λ _. refuse_merge-KeepsSafe m s h)
      (λ _. dispatch_move_entry-KeepsSafe m s h)
conclude_conflict-KeepsSafe (Conflict.move m) false s h = skip_move-KeepsSafe m s h
conclude_conflict-KeepsSafe (Conflict.file i) true s h = dispatch-KeepsSafe i s h
conclude_conflict-KeepsSafe (Conflict.file i) false s h = skip_file-KeepsSafe i s h

remember-KeepsSafe : (c : Conflict) (proceed : Bool) → KeepsSafe (remember c proceed)
unfolding remember
remember-KeepsSafe (Conflict.folder p) proceed s h = h
remember-KeepsSafe (Conflict.move m) proceed s h = if-elim Safe _ _ _ (λ _. h) (λ _. h)
remember-KeepsSafe (Conflict.file i) proceed s h = h

settle_conflict-KeepsSafe :
    (r : ConflictResolution) (c : Conflict) → KeepsSafe (settle_conflict r c)
unfolding settle_conflict
settle_conflict-KeepsSafe always_overwrite c s h = conclude_conflict-KeepsSafe c true s h
settle_conflict-KeepsSafe always_skip c s h = conclude_conflict-KeepsSafe c false s h
settle_conflict-KeepsSafe ask c s h = h

resolve_conflict-KeepsSafe : (c : Conflict) → KeepsSafe (resolve_conflict c)
unfolding resolve_conflict
resolve_conflict-KeepsSafe c s h = settle_conflict-KeepsSafe (resolution_of c s) c s h

folder_checked-KeepsSafe :
    (request : ℕ) (p : PendingFolder) (exists : Bool) → KeepsSafe (folder_checked request p exists)
unfolding folder_checked
folder_checked-KeepsSafe request p exists s h =
    let s' = record s {
      pending_folder_conflict_checks = erase request s.pending_folder_conflict_checks;
    } in
    if-elim Safe _ _ _ (λ _. resolve_conflict-KeepsSafe (Conflict.folder p) s' h)
      (λ _. start_enumeration-KeepsSafe p false s' h)

move_checked-KeepsSafe :
    (request : ℕ) (m : PendingMove) (exists : Bool) → KeepsSafe (move_checked request m exists)
unfolding move_checked
move_checked-KeepsSafe request m exists s h =
    let s' = record s {
      pending_move_conflict_checks = erase request s.pending_move_conflict_checks;
    } in
    if-elim Safe _ _ _ (λ _. resolve_conflict-KeepsSafe (Conflict.move m) s' h)
      (λ _. dispatch_move_entry-KeepsSafe m s' h)

file_checked-KeepsSafe : (request i : ℕ) (exists : Bool) → KeepsSafe (file_checked request i exists)
unfolding file_checked
file_checked-KeepsSafe request i exists s h =
    let s' = record s {
      pending_file_conflict_checks = erase request s.pending_file_conflict_checks;
    } in
    option-elim Safe (get_elem? s.items i) _ _ (λ _. h)
      (λ item _.
        option-elim Safe (active_index_for_item s.active i) _ _ (λ _. h)
          (λ k _.
            if-elim Safe exists _ _ (λ _. resolve_conflict-KeepsSafe (Conflict.file i) s' h)
              (λ _. dispatch-KeepsSafe i s' h)))

handle_exists_checked-KeepsSafe : (d : DeferredExistsCheck) → KeepsSafe (handle_exists_checked d)
unfolding handle_exists_checked
handle_exists_checked-KeepsSafe d s h =
    option-elim Safe (lookup d.request_id s.pending_folder_conflict_checks) _ _
      (λ _.
        option-elim Safe (lookup d.request_id s.pending_move_conflict_checks) _ _
          (λ _.
            option-elim Safe (lookup d.request_id s.pending_file_conflict_checks) _ _ (λ _. h)
              (λ i _. file_checked-KeepsSafe d.request_id i d.exists s h))
          (λ m _. move_checked-KeepsSafe d.request_id m d.exists s h))
      (λ p _. folder_checked-KeepsSafe d.request_id p d.exists s h)

pub on_destination_exists_checked-KeepsSafe :
    (d : DeferredExistsCheck) → KeepsSafe (on_destination_exists_checked d)
unfolding on_destination_exists_checked
on_destination_exists_checked-KeepsSafe d s h =
    option-elim Safe s.dialog _ _ (λ _. handle_exists_checked-KeepsSafe d s h) (λ c _. h)

run_frame-KeepsSafe : (f : Frame) → KeepsSafe (run_frame f)
unfolding run_frame
run_frame-KeepsSafe (replay d) s h = on_destination_exists_checked-KeepsSafe d s h
run_frame-KeepsSafe (conclude c proceed) s h = conclude_conflict-KeepsSafe c proceed s h

run_frames-KeepsSafe : (fs : List Frame) → KeepsSafe (run_frames fs)
unfolding run_frames
run_frames-KeepsSafe [] s h = h
run_frames-KeepsSafe (f ∷ fs) s h =
    let h' = run_frame-KeepsSafe f s h in
    option-elim Safe (run_frame f s).dialog _ _ (λ _. run_frames-KeepsSafe fs (run_frame f s) h')
      (λ c _. h')

pub answer_conflict-KeepsSafe :
    (proceed apply_to_all : Bool) → KeepsSafe (answer_conflict proceed apply_to_all)
unfolding answer_conflict
answer_conflict-KeepsSafe proceed apply_to_all s h =
    option-elim Safe s.dialog _ _ (λ _. h)
      (λ c _.
        let s' = if apply_to_all then remember c proceed s else s in
        (run_frames-KeepsSafe
          (map replay s.deferred_exists_checks ++ (conclude c proceed ∷ s.stack))
          (record s' { dialog = none; stack = []; deferred_exists_checks = [] })
          (if-elim Safe apply_to_all (remember c proceed s) s
            (λ _. remember-KeepsSafe c proceed s h) (λ _. h))))
