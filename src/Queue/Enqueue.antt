-- ===== src/Queue/Enqueue.antt =====
-- The operations of transfer/TransferManager.cpp that add items.
use zephyrftp.Base.{
  ℕ, suc, ◌+◌, Bool, true, false, ◌&&◌, not, List, [], ◌∷◌, ◌++◌, none, some, if◌then◌else◌, length,
}
use zephyrftp.Base.Text.{Text, text_eq, is_empty}
use zephyrftp.Base.Maps.{insert}
use zephyrftp.Paths.{join_path}
use zephyrftp.Backends.Identity.{is_local_filesystem, connection_identity}
use zephyrftp.Backends.Entry.{EnumeratedItem}
use zephyrftp.Queue.Item.{TransferItem, TransferDirection, TransferPhase, new_item}
use zephyrftp.Queue.State.{
  TransferManager, PendingFolder, check_exists, create_directory, item_added,
  folder_transfer_finished, emit,
}
use zephyrftp.Queue.Lookup.{allocate_edit_temp_file_path, allocate_verification_temp_file_path}
use zephyrftp.Queue.Dispatch.{start_next, start_next_if_likely_to_dispatch}

-- m_items.append, m_indexById.insert and itemAdded, for the item with the next id
unfoldable pub append_item : TransferItem → TransferManager → TransferManager
append_item item s = record s {
  items = s.items ++ item ∷ [];
  next_id = suc s.next_id;
  index_by_id = insert item.id (length s.items) s.index_by_id;
  log = item_added item ∷ s.log;
}

abbrev pub directory_of : TransferManager → ℕ → Text
directory_of s p = (s.panes p).current_directory

abbrev pub pane_is_local : TransferManager → ℕ → Bool
pane_is_local s p = is_local_filesystem (s.backends (s.panes p).backend)

unfoldable pub direction_between : Bool → Bool → TransferDirection
direction_between true true = TransferDirection.local_to_local
direction_between true false = TransferDirection.local_to_remote
direction_between false true = TransferDirection.remote_to_local
direction_between false false = TransferDirection.remote_to_remote

-- a staged transfer begins by downloading
abbrev pub initial_phase : Bool → Bool → TransferPhase
initial_phase false false = TransferPhase.downloading
initial_phase _ _ = TransferPhase.idle

unfoldable pub enqueued_item : TransferManager → ℕ → ℕ → Text → Bool → TransferItem
unfolding new_item direction_between
enqueued_item s source dest name assume_overwrite = record (new_item s.next_id) {
  file_name = name;
  source_path = join_path (directory_of s source) name;
  dest_path = join_path (directory_of s dest) name;
  direction = direction_between (pane_is_local s source) (pane_is_local s dest);
  phase = initial_phase (pane_is_local s source) (pane_is_local s dest);
  skip_conflict_check_on_dispatch = assume_overwrite;
  source_pane = some source;
  dest_pane = some dest;
}

-- enqueue
unfoldable pub enqueue : ℕ → ℕ → Text → Bool → TransferManager → TransferManager
unfolding enqueued_item append_item
enqueue source dest name assume_overwrite s =
    start_next_if_likely_to_dispatch (enqueued_item s source dest name assume_overwrite)
      (append_item (enqueued_item s source dest name assume_overwrite) s)

unfoldable pub external_item : TransferManager → ℕ → Text → Text → Bool → TransferItem
unfolding new_item
external_item s dest local_path name assume_overwrite = record (new_item s.next_id) {
  file_name = name;
  source_path = local_path;
  dest_path = join_path (directory_of s dest) name;
  direction =
      (if pane_is_local s dest
        then TransferDirection.local_to_local
        else TransferDirection.local_to_remote);
  skip_conflict_check_on_dispatch = assume_overwrite;
  dest_pane = some dest;
}

-- enqueueExternalUpload
unfoldable pub enqueue_external_upload : ℕ → Text → Text → Bool → TransferManager → TransferManager
unfolding external_item append_item
enqueue_external_upload dest local_path name assume_overwrite s =
    start_next_if_likely_to_dispatch (external_item s dest local_path name assume_overwrite)
      (append_item (external_item s dest local_path name assume_overwrite) s)

-- The root of a folder is checked before anything of it is enumerated.
unfoldable pub check_folder : PendingFolder → TransferManager → TransferManager
check_folder pending s = record s {
  next_conflict_check_id = suc s.next_conflict_check_id;
  pending_folder_conflict_checks =
      insert s.next_conflict_check_id pending s.pending_folder_conflict_checks;
  log =
      check_exists (s.panes pending.dest_pane).backend
        (join_path (directory_of s pending.dest_pane) pending.folder_name) s.next_conflict_check_id
      ∷ s.log;
}

-- enqueueFolder
unfoldable pub enqueue_folder : ℕ → ℕ → Text → TransferManager → TransferManager
unfolding check_folder
enqueue_folder source dest name = check_folder (record {
  source_pane = some source;
  dest_pane = dest;
  folder_name = name;
  is_external = false;
  external_local_root_path = [];
})

-- enqueueExternalFolder
unfoldable pub enqueue_external_folder : ℕ → Text → Text → TransferManager → TransferManager
unfolding check_folder
enqueue_external_folder dest root name = check_folder (record {
  source_pane = none;
  dest_pane = dest;
  folder_name = name;
  is_external = true;
  external_local_root_path = root;
})

-- moveEligible, for two panes
unfoldable pub move_eligible : TransferManager → ℕ → ℕ → Bool
move_eligible s source dest =
    let identity = connection_identity (s.backends (s.panes source).backend) in
    not (is_empty identity)
    && text_eq identity (connection_identity (s.backends (s.panes dest).backend))

-- moveEntry (a file) and moveFolder (a folder)
unfoldable pub request_move : Bool → ℕ → ℕ → Text → TransferManager → TransferManager
unfolding move_eligible
request_move is_folder source dest name s =
    if move_eligible s source dest
    then record s {
      next_conflict_check_id = suc s.next_conflict_check_id;
      pending_move_conflict_checks =
          insert s.next_conflict_check_id
            (record { source_pane = source; dest_pane = dest; name = name; is_folder = is_folder })
            s.pending_move_conflict_checks;
      log =
          check_exists (s.panes dest).backend (join_path (directory_of s dest) name)
            s.next_conflict_check_id
          ∷ s.log;
    }
    else s

unfoldable pub edit_download_item : TransferManager → ℕ → Text → TransferItem
unfolding new_item
edit_download_item s source name = record (new_item s.next_id) {
  file_name = name;
  source_path = join_path (directory_of s source) name;
  dest_path = allocate_edit_temp_file_path s (record (new_item s.next_id) { file_name = name });
  direction = TransferDirection.edit_download;
  skip_conflict_check_on_dispatch = true;
  source_pane = some source;
}

-- startEditDownload
unfoldable pub start_edit_download : ℕ → Text → TransferManager → TransferManager
unfolding edit_download_item append_item
start_edit_download source name s = start_next (append_item (edit_download_item s source name) s)

unfoldable pub edit_upload_item : TransferManager → ℕ → Text → Text → Text → TransferItem
unfolding new_item
edit_upload_item s dest local_path remote_path name = record (new_item s.next_id) {
  file_name = name;
  source_path = local_path;
  dest_path = remote_path;
  direction = TransferDirection.edit_upload;
  skip_conflict_check_on_dispatch = true;
  dest_pane = some dest;
}

-- startEditUpload
unfoldable pub start_edit_upload : ℕ → Text → Text → Text → TransferManager → TransferManager
unfolding edit_upload_item append_item
start_edit_upload dest local_path remote_path name s =
    start_next (append_item (edit_upload_item s dest local_path remote_path name) s)

unfoldable pub verification_item : TransferManager → ℕ → Text → Text → TransferItem
unfolding new_item
verification_item s source remote_path name = record (new_item s.next_id) {
  file_name = name;
  source_path = remote_path;
  dest_path =
      allocate_verification_temp_file_path s (record (new_item s.next_id) { file_name = name });
  direction = TransferDirection.edit_download;
  skip_conflict_check_on_dispatch = true;
  source_pane = some source;
  is_verification_task = true;
}

-- startVerificationDownload
unfoldable pub start_verification_download : ℕ → Text → Text → TransferManager → TransferManager
unfolding verification_item append_item
start_verification_download source remote_path name s =
    start_next (append_item (verification_item s source remote_path name) s)

-- The directories of a folder, parents first; the root only if it is not there yet.
unfoldable pub create_directories :
    ℕ → Text → List EnumeratedItem → Bool → TransferManager → TransferManager
create_directories dest folder [] root_exists s = s
create_directories dest folder (e ∷ es) root_exists s =
    create_directories dest folder es root_exists (
      if e.is_dir && not (root_exists && text_eq e.relative_path folder)
      then emit
          (create_directory (s.panes dest).backend (join_path (directory_of s dest) e.relative_path)
            root_exists)
          s
      else s)

-- Every file of a folder is an ordinary item; the count is of the files.
unfoldable pub enqueue_files : ℕ → ℕ → List EnumeratedItem → TransferManager → TransferManager
enqueue_files source dest [] s = s
enqueue_files source dest (e ∷ es) s =
    enqueue_files source dest es
      (if e.is_dir then s else enqueue source dest e.relative_path false s)

unfoldable pub enqueue_external_files :
    ℕ → Text → List EnumeratedItem → TransferManager → TransferManager
enqueue_external_files dest parent [] s = s
enqueue_external_files dest parent (e ∷ es) s = enqueue_external_files dest parent es (
    if e.is_dir
    then s
    else enqueue_external_upload dest (join_path parent e.relative_path) e.relative_path false s)

unfoldable pub count_files : List EnumeratedItem → ℕ
count_files [] = 0
count_files (e ∷ es) = (if e.is_dir then 0 else 1) + count_files es

-- startFolderFileTransfers, what the enumeration of a pane's folder ends in
unfoldable pub start_folder_file_transfers :
    ℕ → ℕ → Text → List EnumeratedItem → Bool → TransferManager → TransferManager
unfolding create_directories enqueue_files count_files
start_folder_file_transfers source dest folder items root_exists s =
    emit (folder_transfer_finished folder (count_files items))
      (enqueue_files source dest items (create_directories dest folder items root_exists s))

-- startExternalFolderFileTransfers; `parent` is QFileInfo(localRootPath).path()
unfoldable pub start_external_folder_file_transfers :
    ℕ → Text → Text → List EnumeratedItem → Bool → TransferManager → TransferManager
unfolding create_directories enqueue_external_files count_files
start_external_folder_file_transfers dest parent folder items root_exists s =
    emit (folder_transfer_finished folder (count_files items)) (
      enqueue_external_files dest parent items (create_directories dest folder items root_exists s))
