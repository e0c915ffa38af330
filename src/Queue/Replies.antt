-- ===== src/Queue/Replies.antt =====
-- The answers of the backends and of the conflict dialog (transfer/TransferManager.cpp).
-- A dialog pumps the event loop: the handler that opened it waits as a frame, other events are
-- handled meanwhile, and replies to existence checks are deferred until it is answered.
use zephyrftp.Base.{
  ℕ, suc, Bool, true, false, ◌&&◌, List, [], ◌∷◌, ◌++◌, map, none, some, if◌then◌else◌, get_elem?,
  set, null,
}
use zephyrftp.Base.Maps.{lookup, insert, erase}
use zephyrftp.Paths.{join_path}
use zephyrftp.Queue.Item.{TransferItem, TransferStatus, TransferDirection, cannot_merge, new_item}
use zephyrftp.Queue.State.{
  TransferManager, PendingFolder, PendingMove, DeferredExistsCheck, Conflict, Frame,
  ConflictResolution, ask, always_overwrite, always_skip, replay, conclude, enumerate_folder,
  folder_transfer_skipped, move_entry, item_updated, emit,
}
use zephyrftp.Queue.Lookup.{active_index_for_item, release_active_transfer}
use zephyrftp.Queue.Dispatch.{start_next}
use zephyrftp.Queue.Execute.{dispatch_active_item}
use zephyrftp.Queue.Enqueue.{append_item, directory_of}

-- startFolderEnumeration and startExternalFolderEnumeration
unfoldable pub start_enumeration : PendingFolder → Bool → TransferManager → TransferManager
start_enumeration p root_exists s =
    emit
      (enumerate_folder p.source_pane p.dest_pane
        (elim p.source_pane [
          | none ↦ p.external_local_root_path
          | some source ↦ join_path (directory_of s source) p.folder_name
        ])
        p.folder_name root_exists)
      s

unfoldable pub move_item : TransferManager → PendingMove → TransferItem
unfolding new_item
move_item s m = record (new_item s.next_id) {
  file_name = m.name;
  source_path = join_path (directory_of s m.source_pane) m.name;
  dest_path = join_path (directory_of s m.dest_pane) m.name;
  direction = TransferDirection.move;
  status = TransferStatus.in_progress;
  source_pane = some m.source_pane;
  dest_pane = some m.dest_pane;
}

-- dispatchMoveEntry
unfoldable pub dispatch_move_entry : PendingMove → TransferManager → TransferManager
unfolding move_item append_item
dispatch_move_entry m s =
    let item = move_item s m in
    let s' = append_item item s in
    record s' {
      next_move_request_id = suc s.next_move_request_id;
      pending_move_item_id = insert s.next_move_request_id item.id s.pending_move_item_id;
      log =
          move_entry (s.panes m.dest_pane).backend item.source_path item.dest_path
            s.next_move_request_id
          ∷ s'.log;
    }

-- maybeResetMoveConflictResolution
unfoldable pub maybe_reset_move : TransferManager → TransferManager
maybe_reset_move s =
    if null s.pending_move_conflict_checks && null s.pending_move_item_id
    then record s { move_file_conflict_resolution = ask; move_directory_conflict_resolution = ask }
    else s

-- A folder cannot be moved into a folder that is there: a failed row says so.
unfoldable pub refuse_merge : PendingMove → TransferManager → TransferManager
unfolding move_item append_item maybe_reset_move
refuse_merge m s = maybe_reset_move (
    append_item
      (record (move_item s m) {
        status = TransferStatus.failed;
        error_message = cannot_merge m.name;
      })
      s)

unfoldable pub skip_move : PendingMove → TransferManager → TransferManager
unfolding maybe_reset_move
skip_move m s =
    maybe_reset_move (if m.is_folder then emit (folder_transfer_skipped m.name) s else s)

-- The item of a conflict that was answered by Skip.
unfoldable pub skipped_item : TransferItem → TransferItem
skipped_item item = record item { status = TransferStatus.skipped; speed_bytes_per_sec = 0 }

abbrev pub release_if_active : ℕ → TransferManager → TransferManager
release_if_active i s = elim (active_index_for_item s.active i) [
  | none ↦ s
  | some k ↦ release_active_transfer k s
]

unfoldable pub skip_file : ℕ → TransferManager → TransferManager
unfolding skipped_item
skip_file i s = elim (get_elem? s.items i) [
  | none ↦ s
  | some item ↦ start_next (
      release_if_active i (record s {
        items = set s.items i (skipped_item item);
        log = item_updated (skipped_item item) ∷ s.log;
      }))
]

-- What follows a conflict once it is decided to proceed or not.
unfoldable pub conclude_conflict : Conflict → Bool → TransferManager → TransferManager
unfolding start_enumeration skip_move refuse_merge dispatch_move_entry skip_file
conclude_conflict (Conflict.folder p) true s = start_enumeration p true s
conclude_conflict (Conflict.folder p) false s = emit (folder_transfer_skipped p.folder_name) s
conclude_conflict (Conflict.move m) true s =
    if m.is_folder then refuse_merge m s else dispatch_move_entry m s
conclude_conflict (Conflict.move m) false s = skip_move m s
conclude_conflict (Conflict.file i) true s = dispatch_active_item start_next i s
conclude_conflict (Conflict.file i) false s = skip_file i s

-- The remembered answer that applies to a conflict.
unfoldable pub resolution_of : Conflict → TransferManager → ConflictResolution
resolution_of (Conflict.folder p) s = s.directory_conflict_resolution
resolution_of (Conflict.move m) s =
    if m.is_folder then s.move_directory_conflict_resolution else s.move_file_conflict_resolution
resolution_of (Conflict.file i) s = s.file_conflict_resolution

abbrev pub resolution_for : Bool → ConflictResolution
resolution_for proceed = if proceed then always_overwrite else always_skip

-- "Do this for all remaining conflicts": the answer is remembered for its kind of conflict.
unfoldable pub remember : Conflict → Bool → TransferManager → TransferManager
remember (Conflict.folder p) proceed s = record s {
  directory_conflict_resolution = resolution_for proceed;
}
remember (Conflict.move m) proceed s =
    if m.is_folder
    then record s { move_directory_conflict_resolution = resolution_for proceed }
    else record s { move_file_conflict_resolution = resolution_for proceed }
remember (Conflict.file i) proceed s = record s {
  file_conflict_resolution = resolution_for proceed;
}

-- A destination that exists: by the remembered answer, or by asking.
unfoldable pub settle_conflict : ConflictResolution → Conflict → TransferManager → TransferManager
settle_conflict always_overwrite c s = conclude_conflict c true s
settle_conflict always_skip c s = conclude_conflict c false s
settle_conflict ask c s = record s { dialog = some c }

unfoldable pub resolve_conflict : Conflict → TransferManager → TransferManager
unfolding settle_conflict resolution_of
resolve_conflict c s = settle_conflict (resolution_of c s) c s

-- The three kinds of pending checks, each with its entry taken out.
unfoldable pub folder_checked : ℕ → PendingFolder → Bool → TransferManager → TransferManager
folder_checked request p exists s =
    let s' = record s {
      pending_folder_conflict_checks = erase request s.pending_folder_conflict_checks;
    } in
    if exists then resolve_conflict (Conflict.folder p) s' else start_enumeration p false s'

unfoldable pub move_checked : ℕ → PendingMove → Bool → TransferManager → TransferManager
move_checked request m exists s =
    let s' = record s {
      pending_move_conflict_checks = erase request s.pending_move_conflict_checks;
    } in
    if exists then resolve_conflict (Conflict.move m) s' else dispatch_move_entry m s'

unfoldable pub file_checked : ℕ → ℕ → Bool → TransferManager → TransferManager
file_checked request i exists s =
    let s' = record s {
      pending_file_conflict_checks = erase request s.pending_file_conflict_checks;
    } in
    elim (get_elem? s.items i) [
      | none ↦ s'
      | some item ↦ elim (active_index_for_item s.active i) [
        | none ↦ s'
        | some k ↦
            if exists
            then resolve_conflict (Conflict.file i) s'
            else dispatch_active_item start_next i s'
      ]
    ]

-- A reply that no dialog defers.
unfoldable pub handle_exists_checked : DeferredExistsCheck → TransferManager → TransferManager
unfolding folder_checked move_checked file_checked
handle_exists_checked d s = elim (lookup d.request_id s.pending_folder_conflict_checks) [
  | some p ↦ folder_checked d.request_id p d.exists s
  | none ↦ elim (lookup d.request_id s.pending_move_conflict_checks) [
    | some m ↦ move_checked d.request_id m d.exists s
    | none ↦ elim (lookup d.request_id s.pending_file_conflict_checks) [
      | some i ↦ file_checked d.request_id i d.exists s
      | none ↦ s
    ]
  ]
]

-- onDestinationExistsChecked
unfoldable pub on_destination_exists_checked :
    DeferredExistsCheck → TransferManager → TransferManager
on_destination_exists_checked d s = elim s.dialog [
  | some c ↦ record s { deferred_exists_checks = s.deferred_exists_checks ++ d ∷ [] }
  | none ↦ handle_exists_checked d s
]

unfoldable pub run_frame : Frame → TransferManager → TransferManager
run_frame (replay d) s = on_destination_exists_checked d s
run_frame (conclude c proceed) s = conclude_conflict c proceed s

-- The frames are run in turn; a dialog that opens leaves the others waiting below it.
unfoldable pub run_frames : List Frame → TransferManager → TransferManager
unfolding run_frame
run_frames [] s = s
run_frames (f ∷ fs) s =
    let s' = run_frame f s in
    elim s'.dialog [ some c ↦ record s' { stack = fs } | none ↦ run_frames fs s' ]

-- The rest of askConflict and of its caller: the answer is remembered, the deferred replies are
-- replayed in order (drainDeferredExistsChecks), and the handler that asked concludes.
unfoldable pub answer_conflict : Bool → Bool → TransferManager → TransferManager
unfolding run_frames remember
answer_conflict proceed apply_to_all s = elim s.dialog [
  | none ↦ s
  | some c ↦
      let s' = if apply_to_all then remember c proceed s else s in
      run_frames (map replay s.deferred_exists_checks ++ (conclude c proceed ∷ s.stack))
        (record s' { dialog = none; stack = []; deferred_exists_checks = [] })
]
