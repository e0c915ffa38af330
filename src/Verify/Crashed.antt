-- ===== src/Verify/Crashed.antt =====
-- No operation of transfer/ChecksumVerifier.cpp undoes a crash.
use zephyrftp.Base.{
  ℕ, ◌≡◌, refl, Bool, true, ◌&&◌, List, [], ◌∷◌, Option, none, some, option-elim, if-elim,
}
use zephyrftp.Base.Text.{Text}
use zephyrftp.Base.Maps.{lookup}
use zephyrftp.Queue.Item.{TransferItem, TransferStatus, TransferDirection}
use zephyrftp.Queue.State.{TransferManager, Effect, item_updated}
use zephyrftp.Queue.Controls.{cancel_item}
use zephyrftp.Queue.Enqueue.{start_verification_download}
use zephyrftp.Queue.Events.{step}
use zephyrftp.Verify.State.{
  VerifierEvent, verify_asked, cancel_verification, hashed, queue_event, HashOutcome, HashTask,
  local_file, other_file, remote_copy, Verifier, note, file_removed,
}
use zephyrftp.Verify.Operations.{
  fail_download, follow_download, on_manager_item_updated, receive, deliver, with_manager,
  start_remote_reread, begin, verify_item, find_item, is_done, verify, forget, cancel_download,
  cancel, maybe_finish, on_local_hash_finished, on_other_hash_finished, on_hashed, handle,
  put_pending,
}

abbrev pub IsCrashed : Verifier → Type 0
IsCrashed v = v.crashed ≡ true

-- An operation leaves a verifier crashed that was so before.
abbrev KeepsCrashed : (Verifier → Verifier) → Type 0
KeepsCrashed f = (v : Verifier) → IsCrashed v → IsCrashed (f v)

follow_download-KeepsCrashed :
    (status : TransferStatus) (id : ℕ) (item : TransferItem)
    → KeepsCrashed (follow_download status id item)
unfolding follow_download fail_download
follow_download-KeepsCrashed TransferStatus.done id item v c = c
follow_download-KeepsCrashed _ id item v c = c

deliver-KeepsCrashed : (es : List Effect) → KeepsCrashed (deliver es)
unfolding deliver receive on_manager_item_updated
deliver-KeepsCrashed [] v c = c
deliver-KeepsCrashed (item_updated item ∷ es) v c =
    option-elim IsCrashed (lookup item.id (deliver es v).original_of) _ _
      (λ _. deliver-KeepsCrashed es v c)
      (λ id _.
        follow_download-KeepsCrashed item.status id item (deliver es v)
          (deliver-KeepsCrashed es v c))
deliver-KeepsCrashed (_ ∷ es) v c = deliver-KeepsCrashed es v c

with_manager-KeepsCrashed : (f : TransferManager → TransferManager) → KeepsCrashed (with_manager f)
unfolding with_manager
with_manager-KeepsCrashed f v c =
    deliver-KeepsCrashed (f v.manager).log
      (record v { manager = record (f v.manager) { log = [] } }) c

reread-KeepsCrashed :
    (id : ℕ) (pane : Option ℕ) (path name : Text)
    → KeepsCrashed (start_remote_reread id pane path name)
unfolding start_remote_reread
reread-KeepsCrashed id none path name v c = refl
reread-KeepsCrashed id (some pane) path name v c =
    let c' = with_manager-KeepsCrashed (start_verification_download pane path name) v c in
    option-elim IsCrashed
      (lookup id (with_manager (start_verification_download pane path name) v).pending) _ _
      (λ _. c') (λ p _. c')

verify_item-KeepsCrashed :
    (d : TransferDirection) (id : ℕ) (item : TransferItem) → KeepsCrashed (verify_item d id item)
unfolding verify_item
verify_item-KeepsCrashed TransferDirection.local_to_remote id item v c =
    reread-KeepsCrashed id item.dest_pane item.dest_path item.file_name
      (begin id item.source_path v) c
verify_item-KeepsCrashed TransferDirection.edit_upload id item v c =
    reread-KeepsCrashed id item.dest_pane item.dest_path item.file_name
      (begin id item.source_path v) c
verify_item-KeepsCrashed TransferDirection.remote_to_local id item v c =
    reread-KeepsCrashed id item.source_pane item.source_path item.file_name
      (begin id item.dest_path v) c
verify_item-KeepsCrashed TransferDirection.edit_download id item v c =
    reread-KeepsCrashed id item.source_pane item.source_path item.file_name
      (begin id item.dest_path v) c
verify_item-KeepsCrashed _ id item v c = c

verify-KeepsCrashed : (id : ℕ) → KeepsCrashed (verify id)
unfolding verify
verify-KeepsCrashed id v c =
    option-elim IsCrashed (lookup id v.pending) _ _
      (λ _.
        option-elim IsCrashed (find_item id v.manager.items) _ _ (λ _. c)
          (λ item _.
            if-elim IsCrashed (is_done item.status) _ _
              (λ _. verify_item-KeepsCrashed item.direction id item v c) (λ _. c)))
      (λ p _. c)

cancel-KeepsCrashed : (id : ℕ) → KeepsCrashed (cancel id)
unfolding cancel cancel_download forget
cancel-KeepsCrashed id v c =
    option-elim IsCrashed (lookup id v.pending) _ _ (λ _. c)
      (λ p _.
        option-elim IsCrashed p.verify_item_id _ _ (λ _. c)
          (λ t _.
            option-elim IsCrashed (lookup id (with_manager (cancel_item t) v).pending) _ _
              (λ _. refl) (λ q _. with_manager-KeepsCrashed (cancel_item t) v c)))

module _ (same_hex : Text → Text → Bool) where
  maybe_finish-KeepsCrashed : (id : ℕ) → KeepsCrashed (maybe_finish same_hex id)
  unfolding maybe_finish
  maybe_finish-KeepsCrashed id v c =
      option-elim IsCrashed (lookup id v.pending) _ _ (λ _. c)
        (λ p _. if-elim IsCrashed (p.local_finished && p.other_finished) _ _ (λ _. c) (λ _. c))

  on_hashed-KeepsCrashed :
      (task : HashTask) (o : HashOutcome) → KeepsCrashed (on_hashed same_hex task o)
  unfolding on_hashed on_local_hash_finished on_other_hash_finished
  on_hashed-KeepsCrashed (local_file id path) o v c =
      option-elim IsCrashed (lookup id v.pending) _ _ (λ _. c)
        (λ p _. maybe_finish-KeepsCrashed id (put_pending id _ v) c)
  on_hashed-KeepsCrashed (other_file id path) o v c =
      option-elim IsCrashed (lookup id v.pending) _ _ (λ _. c)
        (λ p _. maybe_finish-KeepsCrashed id (put_pending id _ v) c)
  on_hashed-KeepsCrashed (remote_copy id path) o v c =
      option-elim IsCrashed (lookup id v.pending) _ _ (λ _. c)
        (λ p _. maybe_finish-KeepsCrashed id (put_pending id _ (note (file_removed path) v)) c)

  pub handle-KeepsCrashed : (e : VerifierEvent) → KeepsCrashed (handle same_hex e)
  unfolding handle
  handle-KeepsCrashed (verify_asked id) v c = verify-KeepsCrashed id v c
  handle-KeepsCrashed (cancel_verification id) v c = cancel-KeepsCrashed id v c
  handle-KeepsCrashed (hashed task o) v c = on_hashed-KeepsCrashed task o v c
  handle-KeepsCrashed (queue_event e) v c = with_manager-KeepsCrashed (step e) v c
