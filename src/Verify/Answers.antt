-- ===== src/Verify/Answers.antt =====
-- The answers of transfer/ChecksumVerifier.cpp: every event keeps the accounts, unless the verifier
-- crashes.
use zephyrftp.Base.{
  ℕ, ◌+◌, ◌≡◌, refl, ◌⊎◌, false, Bool, ◌&&◌, List, [], ◌∷◌, Option, none, some, arith, ◌==◌,
  if◌then◌else◌, inl, inr, Option-cases, option-elim, if-elim, sym, ◌∙◌,
}
use zephyrftp.Base.Text.{Text}
use zephyrftp.Base.Maps.{lookup, erase, lookup-insert, lookup-erase}
use zephyrftp.Queue.Item.{TransferItem, TransferStatus}
use zephyrftp.Queue.State.{TransferManager, Effect, item_updated}
use zephyrftp.Queue.Controls.{cancel_item}
use zephyrftp.Queue.Events.{step}
use zephyrftp.Verify.State.{
  VerifierEvent, verify_asked, cancel_verification, hashed, queue_event, PendingVerification,
  HashOutcome, HashTask, local_file, other_file, remote_copy, Reason, Notice, file_removed,
  verification_failed, Verifier, note, new_verifier,
}
use zephyrftp.Verify.Operations.{
  run_all, without, fail, fail_download, follow_download, on_manager_item_updated, receive, deliver,
  with_manager, verify_item, find_item, is_done, verify, forget, cancel_download, cancel, verdict,
  maybe_finish, on_local_hash_finished, on_other_hash_finished, on_hashed, handle, put_pending,
}
use zephyrftp.Verify.Counting.{
  begins, answers, times_begun, times_answered, under_way, Accounts, with_manager-Accounts,
}
use zephyrftp.Verify.Crashed.{IsCrashed, handle-KeepsCrashed}
use zephyrftp.Verify.Accounts.{Unrouted, note-Accounts, verify_item-Accounts}

-- The accounts are in order, unless the verifier has crashed.
abbrev Accounted : Verifier → Type 0
Accounted v = IsCrashed v ⊎ Accounts v

module _ (id : ℕ) where
  verify-Accounts : (v : Verifier) → Accounts v → Accounts (verify id v)
  unfolding verify
  verify-Accounts v h =
      option-elim Accounts (lookup id v.pending) _ _
        (λ fresh.
          option-elim Accounts (find_item id v.manager.items) _ _
            (λ _.
              note-Accounts (verification_failed id Reason.not_in_queue) v (λ j. refl) (λ j. refl)
                h)
            (λ item _.
              if-elim Accounts (is_done item.status) (verify_item item.direction id item v)
                (fail id Reason.not_completed v)
                (λ _. verify_item-Accounts id item.direction item v fresh h)
                (λ _.
                  note-Accounts (verification_failed id Reason.not_completed) v (λ j. refl)
                    (λ j. refl) h)))
        (λ p _. h)

  follow_download-pending :
      (status : TransferStatus) (j : ℕ) (item : TransferItem) (v : Verifier)
      (p : PendingVerification)
      → lookup id (follow_download status j item v).pending ≡ some p
      → lookup id v.pending ≡ some p
  unfolding follow_download fail_download
  follow_download-pending TransferStatus.in_progress j item v p e = e
  follow_download-pending TransferStatus.failed j item v p e =
      ground (arith, lookup-erase j id v.pending)
  follow_download-pending TransferStatus.cancelled j item v p e =
      ground (arith, lookup-erase j id v.pending)
  follow_download-pending _ j item v p e = e

  -- An update of the queue changes no entry, and erases at most.
  deliver-pending :
      (es : List Effect) (v : Verifier) (p : PendingVerification)
      → lookup id (deliver es v).pending ≡ some p
      → lookup id v.pending ≡ some p
  unfolding deliver receive on_manager_item_updated
  deliver-pending [] v p e = e
  deliver-pending (item_updated item ∷ es) v p e =
      elim (Option-cases (lookup item.id (deliver es v).original_of)) [
        | inl n ↦ deliver-pending es v p (rw (n, on_manager_item_updated) at e)
        | inr (j, n) ↦ deliver-pending es v p (
            follow_download-pending item.status j item (deliver es v) p
              (rw (n, on_manager_item_updated) at e))
      ]
  deliver-pending (_ ∷ es) v p e = deliver-pending es v p e

  forget-Accounts :
      (v : Verifier) (p : PendingVerification)
      → lookup id v.pending ≡ some p
      → Unrouted id v.original_of
      → Accounts v
      → Accounts (forget id v)
  unfolding forget times_begun times_answered
  forget-Accounts v p e free h = record {
    accounted = λ j. ground (arith, h.accounted j, lookup-erase id j v.pending);
    routed = λ t j e'. ground (arith, h.routed t j, free t, lookup-erase id j v.pending);
  }

  erase-Unrouted :
      (t : ℕ) (v : Verifier) (p : PendingVerification)
      → lookup id v.pending ≡ some p
      → p.verify_item_id ≡ some t
      → Accounts v
      → Unrouted id (erase t v.original_of)
  erase-Unrouted t v p e w h u r = ground (arith, h.routed u id, lookup-erase t u v.original_of)

  erase-Accounts :
      (t : ℕ) (v : Verifier)
      → Accounts v
      → Accounts (record v { original_of = erase t v.original_of })
  erase-Accounts t v h = record {
    accounted = h.accounted;
    routed = λ u j r. ground (arith, h.routed u j, lookup-erase t u v.original_of);
  }

  cancel_download-Accounts :
      (t : ℕ) (p : PendingVerification) (v : Verifier)
      → lookup id v.pending ≡ some p
      → p.verify_item_id ≡ some t
      → Accounts v
      → Accounted (cancel_download id t v)
  unfolding cancel_download with_manager
  cancel_download-Accounts t p v e w h =
      let v' = with_manager (cancel_item t) v in
      let h' = with_manager-Accounts (cancel_item t) v h in
      option-elim Accounted (lookup id v'.pending) _ _ (λ _. inl refl)
        (λ p' e'.
          let same : some p ≡ some p' =
            sym e ∙ deliver-pending (cancel_item t v.manager).log _ p' e' in
          inr (
            forget-Accounts (record v' { original_of = erase t v'.original_of }) p' e'
              (erase-Unrouted t v' p' e' (ground arith) h') (erase-Accounts t v' h')))

  cancel-Accounts : (v : Verifier) → Accounts v → Accounted (cancel id v)
  unfolding cancel
  cancel-Accounts v h = elim (Option-cases (lookup id v.pending)) [
    | inl n ↦ rw (n, cancel) (inr h)
    | inr (p, e) ↦ elim (Option-cases p.verify_item_id) [
      | inl n ↦
          rw (e, n, cancel) (inr (forget-Accounts v p e (λ t r. ground (arith, h.routed t id)) h))
      | inr (t, w) ↦ rw (e, w, cancel) (cancel_download-Accounts t p v e w h)
    ]
  ]

module _ (same_hex : Text → Text → Bool) (id : ℕ) where
  verdict-answers :
      (p : PendingVerification) (j : ℕ)
      → (answers j (verdict same_hex id p) ≡ (if id == j then 1 else 0))
        × (begins j (verdict same_hex id p) ≡ 0)
  unfolding verdict
  verdict-answers p j = ground arith

  finish-Accounts :
      (n : Notice) (w : Option ℕ) (p : PendingVerification) (v : Verifier)
      → ((j : ℕ) → (answers j n ≡ (if id == j then 1 else 0)) × (begins j n ≡ 0))
      → lookup id v.pending ≡ some p
      → p.verify_item_id ≡ w
      → Accounts v
      → Accounts (record v {
        pending = erase id v.pending;
        original_of = without w v.original_of;
        notices = n ∷ v.notices;
      })
  unfolding times_begun times_answered
  finish-Accounts n none p v a e w h = record {
    accounted = λ j. ground (arith, a j, h.accounted j, lookup-erase id j v.pending);
    routed = λ t j r. ground (arith, h.routed t j, lookup-erase id j v.pending);
  }
  finish-Accounts n (some u) p v a e w h = record {
    accounted = λ j. ground (arith, a j, h.accounted j, lookup-erase id j v.pending);
    routed = λ t j r.
        ground (arith, h.routed t j, lookup-erase id j v.pending, lookup-erase u t v.original_of);
  }

  maybe_finish-Accounts : (v : Verifier) → Accounts v → Accounts (maybe_finish same_hex id v)
  unfolding maybe_finish
  maybe_finish-Accounts v h =
      option-elim Accounts (lookup id v.pending) _ _ (λ _. h)
        (λ p e.
          if-elim Accounts (p.local_finished && p.other_finished)
            (record v {
              pending = erase id v.pending;
              original_of = without p.verify_item_id v.original_of;
              notices = verdict same_hex id p ∷ v.notices;
            })
            v
            (λ _.
              finish-Accounts (verdict same_hex id p) p.verify_item_id p v (verdict-answers p) e
                refl h)
            (λ _. h))

  -- An entry changes, but not the copy that it awaits.
  put_pending-Accounts :
      (p p' : PendingVerification) (v : Verifier)
      → lookup id v.pending ≡ some p
      → p'.verify_item_id ≡ p.verify_item_id
      → Accounts v
      → Accounts (put_pending id p' v)
  put_pending-Accounts p p' v e w h = record {
    accounted = λ j. ground (arith, h.accounted j, lookup-insert id j p' v.pending);
    routed = λ t j r. ground (arith, h.routed t j, lookup-insert id j p' v.pending);
  }

  on_local_hash_finished-Accounts :
      (o : HashOutcome) (v : Verifier)
      → Accounts v
      → Accounts (on_local_hash_finished same_hex id o v)
  unfolding on_local_hash_finished
  on_local_hash_finished-Accounts o v h =
      option-elim Accounts (lookup id v.pending) _ _ (λ _. h)
        (λ p e. maybe_finish-Accounts _ (put_pending-Accounts p _ v e refl h))

  on_other_hash_finished-Accounts :
      (o : HashOutcome) (v : Verifier)
      → Accounts v
      → Accounts (on_other_hash_finished same_hex id o v)
  unfolding on_other_hash_finished
  on_other_hash_finished-Accounts o v h =
      option-elim Accounts (lookup id v.pending) _ _ (λ _. h)
        (λ p e. maybe_finish-Accounts _ (put_pending-Accounts p _ v e refl h))

module _ (same_hex : Text → Text → Bool) where
  on_hashed-Accounts :
      (task : HashTask) (o : HashOutcome) (v : Verifier)
      → Accounts v
      → Accounts (on_hashed same_hex task o v)
  unfolding on_hashed
  on_hashed-Accounts (local_file id path) o v h = on_local_hash_finished-Accounts same_hex id o v h
  on_hashed-Accounts (other_file id path) o v h = on_other_hash_finished-Accounts same_hex id o v h
  on_hashed-Accounts (remote_copy id path) o v h =
      on_other_hash_finished-Accounts same_hex id o (note (file_removed path) v)
        (note-Accounts (file_removed path) v (λ j. refl) (λ j. refl) h)

  handle-Accounted :
      (e : VerifierEvent) (v : Verifier) → Accounted v → Accounted (handle same_hex e v)
  unfolding handle
  handle-Accounted e v (inl c) = inl (handle-KeepsCrashed same_hex e v c)
  handle-Accounted (verify_asked id) v (inr h) = inr (verify-Accounts id v h)
  handle-Accounted (cancel_verification id) v (inr h) = cancel-Accounts id v h
  handle-Accounted (hashed task o) v (inr h) = inr (on_hashed-Accounts task o v h)
  handle-Accounted (queue_event e) v (inr h) = inr (with_manager-Accounts (step e) v h)

  run_all-Accounted :
      (manager : TransferManager) (es : List VerifierEvent)
      → Accounted (run_all same_hex manager es)
  unfolding run_all new_verifier times_begun times_answered lookup
  run_all-Accounted manager [] =
      inr (record { accounted = λ j. omega arith; routed = λ t j e. ground arith })
  run_all-Accounted manager (e ∷ es) =
      handle-Accounted e (run_all same_hex manager es) (run_all-Accounted manager es)

  -- Whatever happens to a verifier over any queue, in any order, as long as it has not crashed: each
  -- verification of an item that has begun has been answered, or it is the one of the item that is
  -- under way.
  pub verification_answered_once :
      (manager : TransferManager) (es : List VerifierEvent) (id : ℕ)
      → (run_all same_hex manager es).crashed ≡ false
      → times_begun id (run_all same_hex manager es).notices
        ≡ times_answered id (run_all same_hex manager es).notices
          + under_way (lookup id (run_all same_hex manager es).pending)
  verification_answered_once manager es id ok = elim (run_all-Accounted manager es) [
    | inl c ↦ absurd (ground arith)
    | inr h ↦ h.accounted id
  ]
