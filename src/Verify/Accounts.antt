-- ===== src/Verify/Accounts.antt =====
-- The downloads of copies in transfer/ChecksumVerifier.cpp: an item that is verified awaits one copy
-- at most.
use zephyrftp.Base.{
  ℕ, ◌≡◌, ◌≢◌, refl, List, [], ◌∷◌, Option, none, some, arith, inl, inr, Option-cases, option-elim,
}
use zephyrftp.Base.Text.{Text}
use zephyrftp.Base.Maps.{lookup, insert, lookup-insert, lookup-erase}
use zephyrftp.Queue.Item.{TransferItem, TransferStatus, TransferDirection}
use zephyrftp.Queue.State.{Effect, item_updated}
use zephyrftp.Queue.Enqueue.{start_verification_download}
use zephyrftp.Verify.State.{
  PendingVerification, other_file, Reason, Notice, hash_started, verification_failed, Verifier,
  note,
}
use zephyrftp.Verify.Operations.{
  fail_download, follow_download, on_manager_item_updated, receive, deliver, with_manager,
  start_remote_reread, begin, verify_item,
}
use zephyrftp.Verify.Counting.{
  begins, answers, times_begun, times_answered, Accounts, begin-Accounts, same_fields-Accounts,
  with_manager-Accounts,
}

-- No copy is awaited for the item.
abbrev pub Unrouted : ℕ → List (ℕ × ℕ) → Type 0
Unrouted id m = (t : ℕ) → lookup t m ≢ some id

-- A notice that neither begins nor answers a verification.
pub note-Accounts :
    (n : Notice) (v : Verifier)
    → ((j : ℕ) → begins j n ≡ 0)
    → ((j : ℕ) → answers j n ≡ 0)
    → Accounts v
    → Accounts (note n v)
unfolding times_begun times_answered
note-Accounts n v b a h = record {
  accounted = λ j. omega (arith, h.accounted j, a j, b j);
  routed = h.routed;
}

module _ (id : ℕ) where
  follow_download-Unrouted :
      (status : TransferStatus) (j : ℕ) (item : TransferItem) (v : Verifier)
      → Unrouted id v.original_of
      → Unrouted id (follow_download status j item v).original_of
  unfolding follow_download fail_download
  follow_download-Unrouted TransferStatus.in_progress j item v f t e = f t e
  follow_download-Unrouted TransferStatus.failed j item v f t e =
      ground (arith, f t, lookup-erase item.id t v.original_of)
  follow_download-Unrouted TransferStatus.cancelled j item v f t e =
      ground (arith, f t, lookup-erase item.id t v.original_of)
  follow_download-Unrouted _ j item v f t e = f t e

  deliver-Unrouted :
      (es : List Effect) (v : Verifier)
      → Unrouted id v.original_of
      → Unrouted id (deliver es v).original_of
  unfolding deliver receive on_manager_item_updated
  deliver-Unrouted [] v f = f
  deliver-Unrouted (item_updated item ∷ es) v f =
      elim (Option-cases (lookup item.id (deliver es v).original_of)) [
        | inl e ↦ rw (e, on_manager_item_updated) (deliver-Unrouted es v f)
        | inr (j, e) ↦
            rw (e, on_manager_item_updated)
              (follow_download-Unrouted item.status j item (deliver es v) (deliver-Unrouted es v f))
      ]
  deliver-Unrouted (_ ∷ es) v f = deliver-Unrouted es v f

  attach-Accounts :
      (t : ℕ) (p : PendingVerification) (v : Verifier)
      → lookup id v.pending ≡ some p
      → Unrouted id v.original_of
      → Accounts v
      → Accounts (record v {
        pending = insert id (record p { verify_item_id = some t }) v.pending;
        original_of = insert t id v.original_of;
      })
  attach-Accounts t p v e f h =
      let p' : PendingVerification = record p { verify_item_id = some t } in
      record {
        accounted = λ j. ground (arith, h.accounted j, lookup-insert id j p' v.pending);
        routed = λ u j r. ground (
          arith,
          h.routed u j,
          f u,
          lookup-insert id j p' v.pending,
          lookup-insert t u id v.original_of,
        );
      }

  start_remote_reread-Accounts :
      (pane : Option ℕ) (path name : Text) (v : Verifier)
      → Unrouted id v.original_of
      → Accounts v
      → Accounts (start_remote_reread id pane path name v)
  unfolding start_remote_reread
  start_remote_reread-Accounts none path name v f h = same_fields-Accounts v _ refl refl refl h
  start_remote_reread-Accounts (some pane) path name v f h =
      let v' = with_manager (start_verification_download pane path name) v in
      let h' = with_manager-Accounts (start_verification_download pane path name) v h in
      let f' : Unrouted id v'.original_of =
        unfold with_manager in
        deliver-Unrouted (start_verification_download pane path name v.manager).log _ f in
      option-elim Accounts (lookup id v'.pending) _ _ (λ _. h')
        (λ p e. attach-Accounts v.manager.next_id p v' e f' h')

  pub verify_item-Accounts :
      (d : TransferDirection) (item : TransferItem) (v : Verifier)
      → lookup id v.pending ≡ none
      → Accounts v
      → Accounts (verify_item d id item v)
  unfolding verify_item
  verify_item-Accounts d item v fresh h = go d
    where
      free : Unrouted id v.original_of
      free t e = ground (arith, h.routed t id)

      reread :
          (path remote name : Text) (pane : Option ℕ)
          → Accounts (start_remote_reread id pane remote name (begin id path v))
      reread path remote name pane =
          start_remote_reread-Accounts pane remote name (begin id path v) free
            (begin-Accounts id path v fresh h)

      go : (d : TransferDirection) → Accounts (verify_item d id item v)
      go TransferDirection.local_to_local =
          note-Accounts (hash_started (other_file id item.dest_path)) (begin id item.source_path v)
            (λ j. refl) (λ j. refl) (begin-Accounts id item.source_path v fresh h)
      go TransferDirection.local_to_remote =
          reread item.source_path item.dest_path item.file_name item.dest_pane
      go TransferDirection.edit_upload =
          reread item.source_path item.dest_path item.file_name item.dest_pane
      go TransferDirection.remote_to_local =
          reread item.dest_path item.source_path item.file_name item.source_pane
      go TransferDirection.edit_download =
          reread item.dest_path item.source_path item.file_name item.source_pane
      go _ =
          note-Accounts (verification_failed id Reason.unsupported_type) v (λ j. refl) (λ j. refl) h
