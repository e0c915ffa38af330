-- ===== src/Verify/Operations.antt =====
-- transfer/ChecksumVerifier.cpp. The queue runs in the same thread: what it emits during a call is
-- delivered to onManagerItemUpdated before the call returns. Its log holds what is not delivered yet.
use zephyrftp.Base.{
  ℕ, Bool, true, false, ◌&&◌, List, [], ◌∷◌, Option, none, some, ◌==◌, if◌then◌else◌,
}
use zephyrftp.Base.Text.{Text}
use zephyrftp.Base.Maps.{lookup, insert, erase}
use zephyrftp.Queue.Item.{TransferItem, TransferStatus, TransferDirection}
use zephyrftp.Queue.State.{TransferManager, Effect, item_updated}
use zephyrftp.Queue.Enqueue.{start_verification_download}
use zephyrftp.Queue.Controls.{cancel_item}
use zephyrftp.Queue.Events.{step}
use zephyrftp.Verify.State.{
  PendingVerification, new_pending, HashOutcome, HashTask, local_file, other_file, remote_copy,
  Reason, Notice, hash_started, file_removed, verification_progress, verification_finished,
  verification_failed, Verifier, note, new_verifier, VerifierEvent, verify_asked,
  cancel_verification, hashed, queue_event,
}

abbrev pub put_pending : ℕ → PendingVerification → Verifier → Verifier
put_pending id p v = record v { pending = insert id p v.pending }

abbrev pub fail : ℕ → Reason → Verifier → Verifier
fail id reason v = note (verification_failed id reason) v

-- the download of a copy ended without one
unfoldable pub fail_download : ℕ → ℕ → TransferItem → Reason → Verifier → Verifier
fail_download t id item reason v = record v {
  pending = erase id v.pending;
  original_of = erase t v.original_of;
  notices = verification_failed id reason ∷ (file_removed item.dest_path ∷ v.notices);
}

-- an update of a copy that this class has asked for
unfoldable pub follow_download : TransferStatus → ℕ → TransferItem → Verifier → Verifier
unfolding fail_download
follow_download TransferStatus.in_progress id item v =
    note (verification_progress id item.bytes_done item.bytes_total) v
follow_download TransferStatus.done id item v =
    note (hash_started (remote_copy id item.dest_path)) v
follow_download TransferStatus.failed id item v =
    fail_download item.id id item (Reason.not_downloaded item.error_message) v
follow_download TransferStatus.cancelled id item v =
    fail_download item.id id item Reason.cancelled v
follow_download _ id item v = v

unfoldable pub on_manager_item_updated : TransferItem → Verifier → Verifier
unfolding follow_download
on_manager_item_updated item v = elim (lookup item.id v.original_of) [
  | none ↦ v
  | some id ↦ follow_download item.status id item v
]

unfoldable pub receive : Effect → Verifier → Verifier
unfolding on_manager_item_updated
receive (item_updated item) v = on_manager_item_updated item v
receive _ v = v

-- The newest effect comes first.
unfoldable pub deliver : List Effect → Verifier → Verifier
unfolding receive
deliver [] v = v
deliver (e ∷ es) v = receive e (deliver es v)

-- a call of the queue
unfoldable pub with_manager : (TransferManager → TransferManager) → Verifier → Verifier
unfolding deliver
with_manager f v =
    deliver (f v.manager).log (record v { manager = record (f v.manager) { log = [] } })

-- startRemoteReread; startNext dereferences the pane
unfoldable pub start_remote_reread : ℕ → Option ℕ → Text → Text → Verifier → Verifier
unfolding with_manager
start_remote_reread id none path name v = record v { crashed = true }
start_remote_reread id (some pane) path name v =
    let t = v.manager.next_id in
    let v' = with_manager (start_verification_download pane path name) v in
    elim (lookup id v'.pending) [
      | none ↦ v'
      | some p ↦ record v' {
        pending = insert id (record p { verify_item_id = some t }) v'.pending;
        original_of = insert t id v'.original_of;
      }
    ]

abbrev pub begin : ℕ → Text → Verifier → Verifier
begin id path v = record v {
  pending = insert id new_pending v.pending;
  notices = hash_started (local_file id path) ∷ v.notices;
}

-- the switch over the direction of a completed item
unfoldable pub verify_item : TransferDirection → ℕ → TransferItem → Verifier → Verifier
unfolding start_remote_reread
verify_item TransferDirection.local_to_local id item v =
    note (hash_started (other_file id item.dest_path)) (begin id item.source_path v)
verify_item TransferDirection.local_to_remote id item v =
    start_remote_reread id item.dest_pane item.dest_path item.file_name
      (begin id item.source_path v)
verify_item TransferDirection.edit_upload id item v =
    start_remote_reread id item.dest_pane item.dest_path item.file_name
      (begin id item.source_path v)
verify_item TransferDirection.remote_to_local id item v =
    start_remote_reread id item.source_pane item.source_path item.file_name
      (begin id item.dest_path v)
verify_item TransferDirection.edit_download id item v =
    start_remote_reread id item.source_pane item.source_path item.file_name
      (begin id item.dest_path v)
verify_item _ id item v = fail id Reason.unsupported_type v

unfoldable pub find_item : ℕ → List TransferItem → Option TransferItem
find_item id [] = none
find_item id (item ∷ items) =
    let further = find_item id items in if item.id == id then some item else further

abbrev pub is_done : TransferStatus → Bool
is_done TransferStatus.done = true
is_done _ = false

unfoldable pub verify : ℕ → Verifier → Verifier
unfolding find_item verify_item
verify id v = elim (lookup id v.pending) [
  | some p ↦ v
  | none ↦ elim (find_item id v.manager.items) [
    | none ↦ fail id Reason.not_in_queue v
    | some item ↦
        if is_done item.status
        then verify_item item.direction id item v
        else fail id Reason.not_completed v
  ]
]

unfoldable pub forget : ℕ → Verifier → Verifier
forget id v = record v {
  pending = erase id v.pending;
  notices = verification_failed id Reason.cancelled ∷ v.notices;
}

-- After cancelItem the iterator may have lost its entry: onManagerItemUpdated erases it. What is done
-- through the iterator then has no defined outcome; the calls behind it are made in any case.
unfoldable pub cancel_download : ℕ → ℕ → Verifier → Verifier
unfolding with_manager forget
cancel_download id t v =
    let v' = with_manager (cancel_item t) v in
    elim (lookup id v'.pending) [
      | none ↦ record v' {
        original_of = erase t v'.original_of;
        notices = verification_failed id Reason.cancelled ∷ v'.notices;
        crashed = true;
      }
      | some p ↦ forget id (record v' { original_of = erase t v'.original_of })
    ]

unfoldable pub cancel : ℕ → Verifier → Verifier
unfolding cancel_download
cancel id v = elim (lookup id v.pending) [
  | none ↦ v
  | some p ↦ elim p.verify_item_id [ none ↦ forget id v | some t ↦ cancel_download id t v ]
]

abbrev pub without : Option ℕ → List (ℕ × ℕ) → List (ℕ × ℕ)
without none m = m
without (some t) m = erase t m

module _ (same_hex : Text → Text → Bool) where
  -- What maybeFinish reports of a verification with both hashes.
  unfoldable pub verdict : ℕ → PendingVerification → Notice
  verdict id p =
      if p.local_ok
      then (if p.other_ok
          then verification_finished id (same_hex p.local_hex p.other_hex) p.local_hex p.other_hex
          else verification_failed id (Reason.other_unreadable p.other_error))
      else verification_failed id (Reason.local_unreadable p.local_error)

  unfoldable pub maybe_finish : ℕ → Verifier → Verifier
  unfolding verdict
  maybe_finish id v = elim (lookup id v.pending) [
    | none ↦ v
    | some p ↦
        if p.local_finished && p.other_finished
        then record v {
          pending = erase id v.pending;
          original_of = without p.verify_item_id v.original_of;
          notices = verdict id p ∷ v.notices;
        }
        else v
  ]

  unfoldable pub on_local_hash_finished : ℕ → HashOutcome → Verifier → Verifier
  unfolding maybe_finish
  on_local_hash_finished id o v = elim (lookup id v.pending) [
    | none ↦ v
    | some p ↦ maybe_finish id (
        put_pending id
          (record p {
            local_finished = true;
            local_ok = o.ok;
            local_hex = o.hex;
            local_error = o.error_string;
          })
          v)
  ]

  unfoldable pub on_other_hash_finished : ℕ → HashOutcome → Verifier → Verifier
  unfolding maybe_finish
  on_other_hash_finished id o v = elim (lookup id v.pending) [
    | none ↦ v
    | some p ↦ maybe_finish id (
        put_pending id
          (record p {
            other_finished = true;
            other_ok = o.ok;
            other_hex = o.hex;
            other_error = o.error_string;
          })
          v)
  ]

  -- a watcher of one of the tasks has finished
  unfoldable pub on_hashed : HashTask → HashOutcome → Verifier → Verifier
  unfolding on_local_hash_finished on_other_hash_finished
  on_hashed (local_file id path) o v = on_local_hash_finished id o v
  on_hashed (other_file id path) o v = on_other_hash_finished id o v
  on_hashed (remote_copy id path) o v = on_other_hash_finished id o (note (file_removed path) v)

  unfoldable pub handle : VerifierEvent → Verifier → Verifier
  unfolding verify cancel on_hashed with_manager
  handle (verify_asked id) v = verify id v
  handle (cancel_verification id) v = cancel id v
  handle (hashed task o) v = on_hashed task o v
  handle (queue_event e) v = with_manager (step e) v

  -- The newest event comes first.
  unfoldable pub run_all : TransferManager → List VerifierEvent → Verifier
  unfolding handle new_verifier
  run_all manager [] = new_verifier manager
  run_all manager (e ∷ es) = handle e (run_all manager es)
