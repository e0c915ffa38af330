-- ===== src/Queue/Rows/Operations.antt =====
-- The operations of the panes and of the queue's window, for predicates of the rows.
use zephyrftp.Base.{
  ℕ, ◌≡◌, refl, Bool, true, false, ◌&&◌, not, List, [], ◌∷◌, some, inl, inr, arith, Option-cases,
  option-elim, if-elim, if◌then◌else◌, get_elem?,
}
use zephyrftp.Base.Text.{Text, text_eq}
use zephyrftp.Paths.{join_path}
use zephyrftp.Backends.Entry.{EnumeratedItem}
use zephyrftp.Queue.Item.{
  TransferItem, TransferStatus, is_paused, is_retryable, is_terminal, is_move,
}
use zephyrftp.Queue.State.{TransferManager, ActiveTransfer, create_directory, emit}
use zephyrftp.Queue.Lookup.{active_index_for_item, index_of_id, cleaned_item}
use zephyrftp.Queue.Dispatch.{start_next_if_likely_to_dispatch}
use zephyrftp.Queue.Enqueue.{
  append_item, enqueued_item, enqueue, external_item, enqueue_external_upload, request_move,
  edit_download_item, start_edit_download, edit_upload_item, start_edit_upload, verification_item,
  start_verification_download, create_directories, enqueue_files, enqueue_external_files,
  start_folder_file_transfers, start_external_folder_file_transfers, directory_of,
}
use zephyrftp.Queue.Controls.{
  cancelled_item, cancel_active, cancel_waiting, cancel_at, cancel_item, restarted_item, retry_at,
  retry_item, clear_one, clear_items, pause_entry, pause_item, resumed_item, resume_item,
}
use zephyrftp.Queue.Claims.Keys.{active_index_found}
use zephyrftp.Queue.Rows.Closed.{Predicate, IsAt, IsClosed}
use zephyrftp.Queue.Rows.Scans.{IsKept, end-IsAt, release-IsKept, start_next-IsKept}

module _ (P : Predicate) (c : IsClosed P) where
  pub append_item-IsKept :
      (item : TransferItem) (s : TransferManager)
      → item.id ≡ s.next_id
      → IsAt P s
      → IsAt P (append_item item s)
  unfolding append_item
  append_item-IsKept item s e h = c.append s.items s.scan_floor s.index_by_id s.next_id item e h

  likely-IsKept : (item : TransferItem) → IsKept P (start_next_if_likely_to_dispatch item)
  unfolding start_next_if_likely_to_dispatch
  likely-IsKept item s h = if-elim (IsAt P) _ _ _ (λ _. start_next-IsKept P c s h) (λ _. h)

  pub enqueue-IsKept :
      (source dest : ℕ) (name : Text) (assume_overwrite : Bool)
      → IsKept P (enqueue source dest name assume_overwrite)
  unfolding enqueue
  enqueue-IsKept source dest name assume_overwrite s h =
      let item = enqueued_item s source dest name assume_overwrite in
      likely-IsKept item (append_item item s)
        (append_item-IsKept item s (unfold enqueued_item in refl) h)

  pub enqueue_external-IsKept :
      (dest : ℕ) (path name : Text) (assume_overwrite : Bool)
      → IsKept P (enqueue_external_upload dest path name assume_overwrite)
  unfolding enqueue_external_upload
  enqueue_external-IsKept dest path name assume_overwrite s h =
      let item = external_item s dest path name assume_overwrite in
      likely-IsKept item (append_item item s)
        (append_item-IsKept item s (unfold external_item in refl) h)

  pub request_move-IsKept :
      (is_folder : Bool) (source dest : ℕ) (name : Text)
      → IsKept P (request_move is_folder source dest name)
  unfolding request_move
  request_move-IsKept is_folder source dest name s h = if-elim (IsAt P) _ _ _ (λ _. h) (λ _. h)

  pub start_edit_download-IsKept :
      (source : ℕ) (name : Text) → IsKept P (start_edit_download source name)
  unfolding start_edit_download edit_download_item
  start_edit_download-IsKept source name s h =
      start_next-IsKept P c (append_item (edit_download_item s source name) s)
        (append_item-IsKept (edit_download_item s source name) s refl h)

  pub start_edit_upload-IsKept :
      (dest : ℕ) (local_path remote_path name : Text)
      → IsKept P (start_edit_upload dest local_path remote_path name)
  unfolding start_edit_upload edit_upload_item
  start_edit_upload-IsKept dest local_path remote_path name s h =
      start_next-IsKept P c (append_item (edit_upload_item s dest local_path remote_path name) s)
        (append_item-IsKept (edit_upload_item s dest local_path remote_path name) s refl h)

  pub start_verification-IsKept :
      (source : ℕ) (path name : Text) → IsKept P (start_verification_download source path name)
  unfolding start_verification_download verification_item
  start_verification-IsKept source path name s h =
      start_next-IsKept P c (append_item (verification_item s source path name) s)
        (append_item-IsKept (verification_item s source path name) s refl h)

  create_directories-IsKept :
      (dest : ℕ) (folder : Text) (es : List EnumeratedItem) (root_exists : Bool)
      → IsKept P (create_directories dest folder es root_exists)
  unfolding create_directories
  create_directories-IsKept dest folder [] root_exists s h = h
  create_directories-IsKept dest folder (e ∷ es) root_exists s h =
      create_directories-IsKept dest folder es root_exists
        (if e.is_dir && not (root_exists && text_eq e.relative_path folder)
          then emit
              (create_directory (s.panes dest).backend
                (join_path (directory_of s dest) e.relative_path) root_exists)
              s
          else s)
        (if-elim (IsAt P) _ _ _ (λ _. h) (λ _. h))

  enqueue_files-IsKept :
      (source dest : ℕ) (es : List EnumeratedItem) → IsKept P (enqueue_files source dest es)
  unfolding enqueue_files
  enqueue_files-IsKept source dest [] s h = h
  enqueue_files-IsKept source dest (e ∷ es) s h =
      enqueue_files-IsKept source dest es
        (if e.is_dir then s else enqueue source dest e.relative_path false s)
        (if-elim (IsAt P) _ _ _ (λ _. h)
          (λ _. enqueue-IsKept source dest e.relative_path false s h))

  enqueue_external_files-IsKept :
      (dest : ℕ) (parent : Text) (es : List EnumeratedItem)
      → IsKept P (enqueue_external_files dest parent es)
  unfolding enqueue_external_files
  enqueue_external_files-IsKept dest parent [] s h = h
  enqueue_external_files-IsKept dest parent (e ∷ es) s h =
      enqueue_external_files-IsKept dest parent es
        (if e.is_dir
          then s
          else enqueue_external_upload dest (join_path parent e.relative_path) e.relative_path false
              s)
        (if-elim (IsAt P) _ _ _ (λ _. h)
          (λ _.
            enqueue_external-IsKept dest (join_path parent e.relative_path) e.relative_path false s
              h))

  pub folder_files-IsKept :
      (source dest : ℕ) (folder : Text) (es : List EnumeratedItem) (root_exists : Bool)
      → IsKept P (start_folder_file_transfers source dest folder es root_exists)
  unfolding start_folder_file_transfers
  folder_files-IsKept source dest folder es root_exists s h =
      enqueue_files-IsKept source dest es (create_directories dest folder es root_exists s)
        (create_directories-IsKept dest folder es root_exists s h)

  pub external_folder_files-IsKept :
      (dest : ℕ) (parent folder : Text) (es : List EnumeratedItem) (root_exists : Bool)
      → IsKept P (start_external_folder_file_transfers dest parent folder es root_exists)
  unfolding start_external_folder_file_transfers
  external_folder_files-IsKept dest parent folder es root_exists s h =
      enqueue_external_files-IsKept dest parent es (create_directories dest folder es root_exists s)
        (create_directories-IsKept dest folder es root_exists s h)

  cancel_active-IsKept :
      (i : ℕ) (item : TransferItem) (k : ℕ) (a : ActiveTransfer) (s : TransferManager)
      → get_elem? s.items i ≡ some item
      → IsAt P s
      → IsAt P (cancel_active i item k a s)
  unfolding cancel_active
  cancel_active-IsKept i item k a s e h =
      option-elim (IsAt P) a.current_executor _ _
        (λ _. start_next-IsKept P c _ (
          release-IsKept P c k _ (
            end-IsAt P c i item (cancelled_item item) s e
              (unfold cancelled_item cleaned_item in ground arith)
              (unfold cancelled_item cleaned_item in ground arith) h)))
        (λ b _. h)

  cancel_waiting-IsKept :
      (i : ℕ) (item : TransferItem) (s : TransferManager)
      → get_elem? s.items i ≡ some item
      → IsAt P s
      → IsAt P (cancel_waiting i item s)
  unfolding cancel_waiting
  cancel_waiting-IsKept i item s e h =
      if-elim (IsAt P) _ _ _
        (λ _.
          end-IsAt P c i item (record item { status = TransferStatus.cancelled }) s e refl refl h)
        (λ _. h)

  cancel_at-IsKept : (i : ℕ) → IsKept P (cancel_at i)
  unfolding cancel_at
  cancel_at-IsKept i s h =
      option-elim (IsAt P) (get_elem? s.items i) _ _ (λ _. h)
        (λ item e.
          option-elim (IsAt P) (active_index_for_item s.active i) _ _
            (λ _. cancel_waiting-IsKept i item s e h)
            (λ k f.
              let (a, at, q) = active_index_found s.active i k f in
              rw at (cancel_active-IsKept i item k a s e h)))

  pub cancel_item-IsKept : (id : ℕ) → IsKept P (cancel_item id)
  unfolding cancel_item
  cancel_item-IsKept id s h =
      option-elim (IsAt P) (index_of_id s id) _ _ (λ _. h) (λ i _. cancel_at-IsKept i s h)

  retry_at-IsKept :
      (i : ℕ) (item : TransferItem) (s : TransferManager)
      → get_elem? s.items i ≡ some item
      → IsAt P s
      → IsAt P (retry_at i item s)
  unfolding retry_at
  retry_at-IsKept i item s e h =
      if-elim (IsAt P) (is_move item.direction) _ _
        (λ _. c.lower s.items s.scan_floor s.index_by_id s.next_id i h)
        (λ _. start_next-IsKept P c _ (
          c.requeue s.items s.scan_floor s.index_by_id s.next_id i item (restarted_item item) e
            (unfold restarted_item in ground arith) h))

  pub retry_item-IsKept : (id : ℕ) → IsKept P (retry_item id)
  unfolding retry_item
  retry_item-IsKept id s h =
      option-elim (IsAt P) (index_of_id s id) _ _ (λ _. h)
        (λ i _.
          option-elim (IsAt P) (get_elem? s.items i) _ _ (λ _. h)
            (λ item e.
              if-elim (IsAt P) (is_retryable item.status) _ _ (λ _. retry_at-IsKept i item s e h)
                (λ _. h)))

  clear_one-IsKept : (id : ℕ) → IsKept P (clear_one id)
  unfolding clear_one
  clear_one-IsKept id s h =
      option-elim (IsAt P) (index_of_id s id) _ _ (λ _. h)
        (λ i _.
          option-elim (IsAt P) (get_elem? s.items i) _ _ (λ _. h)
            (λ item e.
              if-elim (IsAt P) (is_terminal item.status) _ _
                (λ _.
                  c.change s.items s.scan_floor s.index_by_id s.next_id i item
                    (record item { cleared_from_queue = true }) e refl (ground arith) h)
                (λ _. h)))

  pub clear_items-IsKept : (ids : List ℕ) → IsKept P (clear_items ids)
  unfolding clear_items
  clear_items-IsKept [] s h = h
  clear_items-IsKept (id ∷ ids) s h =
      clear_items-IsKept ids (clear_one id s) (clear_one-IsKept id s h)

  pub pause_item-IsKept : (id : ℕ) → IsKept P (pause_item id)
  unfolding pause_item pause_entry
  pause_item-IsKept id s h = elim (Option-cases (index_of_id s id)) [
    | inl n ↦ rw (n, pause_item) h
    | inr (i, f) ↦ elim (Option-cases (active_index_for_item s.active i)) [
      | inl n ↦ rw (f, n, pause_item) h
      | inr (k, g) ↦
          let (a, at, q) = active_index_found s.active i k g in
          elim (Option-cases a.current_executor) [
            | inl n ↦ rw (f, g, at, pause_item, n, pause_entry) h
            | inr (b, x) ↦ rw (f, g, at, pause_item, x, pause_entry) h
          ]
    ]
  ]

  pub resume_item-IsKept : (id : ℕ) → IsKept P (resume_item id)
  unfolding resume_item
  resume_item-IsKept id s h =
      option-elim (IsAt P) (index_of_id s id) _ _ (λ _. h)
        (λ i _.
          option-elim (IsAt P) (get_elem? s.items i) _ _ (λ _. h)
            (λ item e.
              if-elim (IsAt P) (is_paused item.status) _ _
                (λ _. start_next-IsKept P c _ (
                  c.requeue s.items s.scan_floor s.index_by_id s.next_id i item (resumed_item item)
                    e (unfold resumed_item in refl) h))
                (λ _. h)))
