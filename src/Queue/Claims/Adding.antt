-- ===== src/Queue/Claims/Adding.antt =====
-- The operations that add items keep the invariant.
use zephyrftp.Base.{
  ℕ, suc, ◌≡◌, refl, sym, Bool, false, not, ◌&&◌, List, [], ◌∷◌, ◌++◌, some, inl, inr, arith,
  Option-cases, if-elim, get_elem?, All-get, if◌then◌else◌, subst, length,
}
use zephyrftp.Base.Text.{Text, text_eq}
use zephyrftp.Base.Maps.{insert}
use zephyrftp.Paths.{join_path}
use zephyrftp.Backends.Entry.{EnumeratedItem}
use zephyrftp.Queue.Item.{TransferItem}
use zephyrftp.Queue.State.{TransferManager, PendingFolder, create_directory, emit}
use zephyrftp.Queue.Lookup.{primary_of, reservation_key_at, active_index_for_item}
use zephyrftp.Queue.Dispatch.{start_next, start_next_if_likely_to_dispatch}
use zephyrftp.Queue.Enqueue.{
  append_item, enqueued_item, enqueue, external_item, enqueue_external_upload, check_folder,
  request_move, edit_download_item, start_edit_download, edit_upload_item, start_edit_upload,
  verification_item, start_verification_download, create_directories, enqueue_files,
  enqueue_external_files, start_folder_file_transfers, start_external_folder_file_transfers,
  directory_of,
}
use zephyrftp.Queue.Claims.Lists.{has_item}
use zephyrftp.Queue.Claims.Keys.{active_index_found, active_index_none}
use zephyrftp.Queue.Claims.Invariant.{is_live, Inv, Inv-append, Owned-item}
use zephyrftp.Queue.Claims.Dispatching.{InvOf, Safe, SoundIn}
use zephyrftp.Queue.Claims.Crash.{KeepsCrash, start_next-KeepsCrash}
use zephyrftp.Queue.Claims.Scanning.{start_next-Safe}

-- An operation is safe if it keeps crashes and the invariant.
abbrev pub KeepsSafe : (TransferManager → TransferManager) → Type 0
KeepsSafe f = (s : TransferManager) → Safe s → Safe (f s)

pub Safe-of :
    (f : TransferManager → TransferManager)
    → KeepsCrash f
    → ((s : TransferManager) → InvOf s → Safe (f s))
    → KeepsSafe f
Safe-of f stays keep s (inl c) = inl (stays s c)
Safe-of f stays keep s (inr v) = keep s v

pub start_next-KeepsSafe : KeepsSafe start_next
start_next-KeepsSafe = Safe-of start_next start_next-KeepsCrash start_next-Safe

pub append_item-Safe :
    (item : TransferItem) (s : TransferManager)
    → item.id ≡ s.next_id
    → SoundIn s item
    → Safe s
    → Safe (append_item item s)
unfolding append_item
append_item-Safe item s e g (inl c) = inl c
append_item-Safe item s e g (inr v) = inr (
    subst
      (λ j.
        Inv (primary_of s.panes) (reservation_key_at s.panes s.backends) s.pending_move_item_id
          (insert j (length s.items) s.index_by_id) (suc s.next_id) (s.items ++ item ∷ []) s.active
          s.reserved_destination_keys)
      (sym e) (Inv-append _ _ item v g))

start_likely-KeepsSafe : (item : TransferItem) → KeepsSafe (start_next_if_likely_to_dispatch item)
unfolding start_next_if_likely_to_dispatch
start_likely-KeepsSafe item s h = if-elim Safe _ _ _ (λ _. start_next-KeepsSafe s h) (λ _. h)

enqueued_item-Sound :
    (s : TransferManager) (source dest : ℕ) (name : Text) (assume_overwrite : Bool)
    → SoundIn s (enqueued_item s source dest name assume_overwrite)
unfolding enqueued_item
enqueued_item-Sound s source dest name assume_overwrite =
    ((λ r. inl (ground arith, ground arith)), ground arith)

pub enqueue-KeepsSafe :
    (source dest : ℕ) (name : Text) (assume_overwrite : Bool)
    → KeepsSafe (enqueue source dest name assume_overwrite)
unfolding enqueue
enqueue-KeepsSafe source dest name assume_overwrite s h =
    let item = enqueued_item s source dest name assume_overwrite in
    start_likely-KeepsSafe item (append_item item s) (
      append_item-Safe item s (unfold enqueued_item in refl)
        (enqueued_item-Sound s source dest name assume_overwrite) h)

external_item-Sound :
    (s : TransferManager) (dest : ℕ) (path name : Text) (assume_overwrite : Bool)
    → SoundIn s (external_item s dest path name assume_overwrite)
unfolding external_item
external_item-Sound s dest path name assume_overwrite = ((λ r. absurd (ground arith)), ground arith)

pub enqueue_external_upload-KeepsSafe :
    (dest : ℕ) (path name : Text) (assume_overwrite : Bool)
    → KeepsSafe (enqueue_external_upload dest path name assume_overwrite)
unfolding enqueue_external_upload
enqueue_external_upload-KeepsSafe dest path name assume_overwrite s h =
    let item = external_item s dest path name assume_overwrite in
    start_likely-KeepsSafe item (append_item item s) (
      append_item-Safe item s (unfold external_item in refl)
        (external_item-Sound s dest path name assume_overwrite) h)

pub check_folder-KeepsSafe : (p : PendingFolder) → KeepsSafe (check_folder p)
unfolding check_folder
check_folder-KeepsSafe p s h = h

pub request_move-KeepsSafe :
    (is_folder : Bool) (source dest : ℕ) (name : Text)
    → KeepsSafe (request_move is_folder source dest name)
unfolding request_move
request_move-KeepsSafe is_folder source dest name s h = if-elim Safe _ _ _ (λ _. h) (λ _. h)

pub start_edit_download-KeepsSafe :
    (source : ℕ) (name : Text) → KeepsSafe (start_edit_download source name)
unfolding start_edit_download edit_download_item
start_edit_download-KeepsSafe source name s h =
    start_next-KeepsSafe (append_item (edit_download_item s source name) s) (
      append_item-Safe (edit_download_item s source name) s refl
        ((λ r. absurd (ground arith)), refl) h)

pub start_edit_upload-KeepsSafe :
    (dest : ℕ) (local_path remote_path name : Text)
    → KeepsSafe (start_edit_upload dest local_path remote_path name)
unfolding start_edit_upload edit_upload_item
start_edit_upload-KeepsSafe dest local_path remote_path name s h =
    start_next-KeepsSafe (append_item (edit_upload_item s dest local_path remote_path name) s) (
      append_item-Safe (edit_upload_item s dest local_path remote_path name) s refl
        ((λ r. absurd (ground arith)), refl) h)

pub start_verification_download-KeepsSafe :
    (source : ℕ) (path name : Text) → KeepsSafe (start_verification_download source path name)
unfolding start_verification_download verification_item
start_verification_download-KeepsSafe source path name s h =
    start_next-KeepsSafe (append_item (verification_item s source path name) s) (
      append_item-Safe (verification_item s source path name) s refl
        ((λ r. absurd (ground arith)), refl) h)

create_directories-KeepsSafe :
    (dest : ℕ) (folder : Text) (es : List EnumeratedItem) (root_exists : Bool)
    → KeepsSafe (create_directories dest folder es root_exists)
unfolding create_directories
create_directories-KeepsSafe dest folder [] root_exists s h = h
create_directories-KeepsSafe dest folder (e ∷ es) root_exists s h =
    create_directories-KeepsSafe dest folder es root_exists
      (if e.is_dir && not (root_exists && text_eq e.relative_path folder)
        then emit
            (create_directory (s.panes dest).backend
              (join_path (directory_of s dest) e.relative_path) root_exists)
            s
        else s)
      (if-elim Safe _ _ _ (λ _. h) (λ _. h))

enqueue_files-KeepsSafe :
    (source dest : ℕ) (es : List EnumeratedItem) → KeepsSafe (enqueue_files source dest es)
unfolding enqueue_files
enqueue_files-KeepsSafe source dest [] s h = h
enqueue_files-KeepsSafe source dest (e ∷ es) s h =
    enqueue_files-KeepsSafe source dest es
      (if e.is_dir then s else enqueue source dest e.relative_path false s)
      (if-elim Safe _ _ _ (λ _. h) (λ _. enqueue-KeepsSafe source dest e.relative_path false s h))

enqueue_external_files-KeepsSafe :
    (dest : ℕ) (parent : Text) (es : List EnumeratedItem)
    → KeepsSafe (enqueue_external_files dest parent es)
unfolding enqueue_external_files
enqueue_external_files-KeepsSafe dest parent [] s h = h
enqueue_external_files-KeepsSafe dest parent (e ∷ es) s h =
    enqueue_external_files-KeepsSafe dest parent es
      (if e.is_dir
        then s
        else enqueue_external_upload dest (join_path parent e.relative_path) e.relative_path false
            s)
      (if-elim Safe _ _ _ (λ _. h)
        (λ _.
          enqueue_external_upload-KeepsSafe dest (join_path parent e.relative_path) e.relative_path
            false s h))

pub start_folder_file_transfers-KeepsSafe :
    (source dest : ℕ) (folder : Text) (es : List EnumeratedItem) (root_exists : Bool)
    → KeepsSafe (start_folder_file_transfers source dest folder es root_exists)
unfolding start_folder_file_transfers
start_folder_file_transfers-KeepsSafe source dest folder es root_exists s h =
    enqueue_files-KeepsSafe source dest es (create_directories dest folder es root_exists s)
      (create_directories-KeepsSafe dest folder es root_exists s h)

pub start_external_folder_file_transfers-KeepsSafe :
    (dest : ℕ) (parent folder : Text) (es : List EnumeratedItem) (root_exists : Bool)
    → KeepsSafe (start_external_folder_file_transfers dest parent folder es root_exists)
unfolding start_external_folder_file_transfers
start_external_folder_file_transfers-KeepsSafe dest parent folder es root_exists s h =
    enqueue_external_files-KeepsSafe dest parent es
      (create_directories dest folder es root_exists s)
      (create_directories-KeepsSafe dest folder es root_exists s h)

-- An item that is neither queued nor in progress is in no entry.
pub has_item_of_dead :
    (s : TransferManager) (i : ℕ) (item : TransferItem)
    → InvOf s
    → get_elem? s.items i ≡ some item
    → is_live item.status ≡ false
    → has_item i s.active ≡ false
has_item_of_dead s i item v e dead = elim (Option-cases (active_index_for_item s.active i)) [
  | inl n ↦ active_index_none s.active i n
  | inr (k, f) ↦
      let (a, at, q) = active_index_found s.active i k f in
      let h = Owned-item _ _ s.items a i item (All-get _ s.active k a v.owned at) q e in
      absurd (ground (arith, h.live))
]
