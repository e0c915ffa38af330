-- ===== src/Verify/Verdicts.antt =====
-- What transfer/ChecksumVerifier.cpp reports once it has both hashes.
use zephyrftp.Base.{
  ℕ, ◌≡◌, refl, ap, ◌∙◌, Bool, true, false, List, [], ◌∷◌, ◌||◌, none, some, arith, if◌then◌else◌,
  get_elem?,
}
use zephyrftp.Base.Text.{Text}
use zephyrftp.Base.Maps.{lookup, insert, erase, lookup-insert, lookup-erase}
use zephyrftp.Queue.Item.{TransferItem, TransferStatus, is_queued, is_paused}
use zephyrftp.Queue.State.{TransferManager, item_updated, Effect}
use zephyrftp.Queue.Lookup.{index_of_id, active_index_for_item}
use zephyrftp.Queue.Controls.{cancel_waiting, cancel_at, cancel_item}
use zephyrftp.Verify.State.{
  PendingVerification, HashOutcome, Reason, Notice, verification_finished, verification_failed,
  Verifier,
}
use zephyrftp.Verify.Operations.{
  without, verdict, maybe_finish, on_local_hash_finished, on_other_hash_finished, put_pending,
  cancel, cancel_download, with_manager, deliver, receive, on_manager_item_updated, follow_download,
  fail_download,
}

abbrev with_local : HashOutcome → PendingVerification → PendingVerification
with_local o p = record p {
  local_finished = true;
  local_ok = o.ok;
  local_hex = o.hex;
  local_error = o.error_string;
}

abbrev with_other : HashOutcome → PendingVerification → PendingVerification
with_other o p = record p {
  other_finished = true;
  other_ok = o.ok;
  other_hex = o.hex;
  other_error = o.error_string;
}

erase-insert {ℓ} :
    {V : Type ℓ} (id : ℕ) (v : V) (m : List (ℕ × V)) → erase id (insert id v m) ≡ erase id m
unfolding erase insert
erase-insert id v [] = ground arith
erase-insert id v (entry ∷ m) = ground (arith, erase-insert id v m)

module _ (same_hex : Text → Text → Bool) (id : ℕ) where
  -- The report on two outcomes, of the local file and of the other one.
  abbrev pub report : HashOutcome → HashOutcome → Notice
  report o o' =
      if o.ok
      then (if o'.ok
          then verification_finished id (same_hex o.hex o'.hex) o.hex o'.hex
          else verification_failed id (Reason.other_unreadable o'.error_string))
      else verification_failed id (Reason.local_unreadable o.error_string)

  -- The verification is over, with a report.
  abbrev pub settled : Notice → PendingVerification → Verifier → Verifier
  settled n p v = record v {
    pending = erase id v.pending;
    original_of = without p.verify_item_id v.original_of;
    notices = n ∷ v.notices;
  }

  lookup-insert_self :
      (p : PendingVerification) (m : List (ℕ × PendingVerification))
      → lookup id (insert id p m) ≡ some p
  lookup-insert_self p m = ground (arith, lookup-insert id id p m)

  local_waits :
      (o : HashOutcome) (p : PendingVerification) (v : Verifier)
      → lookup id v.pending ≡ some p
      → p.other_finished ≡ false
      → on_local_hash_finished same_hex id o v ≡ put_pending id (with_local o p) v
  unfolding on_local_hash_finished maybe_finish
  local_waits o p v e f =
      rw (e, on_local_hash_finished, lookup-insert_self (with_local o p) v.pending, maybe_finish, f)
        refl

  local_settles :
      (o : HashOutcome) (p : PendingVerification) (v : Verifier)
      → lookup id v.pending ≡ some p
      → p.other_finished ≡ true
      → on_local_hash_finished same_hex id o v ≡ settled (verdict same_hex id (with_local o p)) p v
  unfolding on_local_hash_finished maybe_finish
  local_settles o p v e f =
      rw (e, on_local_hash_finished, lookup-insert_self (with_local o p) v.pending, maybe_finish, f)
        (ap
          (λ m. record v {
            pending = m;
            original_of = without p.verify_item_id v.original_of;
            notices = verdict same_hex id (with_local o p) ∷ v.notices;
          })
          (erase-insert id _ v.pending))

  other_waits :
      (o : HashOutcome) (p : PendingVerification) (v : Verifier)
      → lookup id v.pending ≡ some p
      → p.local_finished ≡ false
      → on_other_hash_finished same_hex id o v ≡ put_pending id (with_other o p) v
  unfolding on_other_hash_finished maybe_finish
  other_waits o p v e f =
      rw (e, on_other_hash_finished, lookup-insert_self (with_other o p) v.pending, maybe_finish, f)
        refl

  other_settles :
      (o : HashOutcome) (p : PendingVerification) (v : Verifier)
      → lookup id v.pending ≡ some p
      → p.local_finished ≡ true
      → on_other_hash_finished same_hex id o v ≡ settled (verdict same_hex id (with_other o p)) p v
  unfolding on_other_hash_finished maybe_finish
  other_settles o p v e f =
      rw (e, on_other_hash_finished, lookup-insert_self (with_other o p) v.pending, maybe_finish, f)
        (ap
          (λ m. record v {
            pending = m;
            original_of = without p.verify_item_id v.original_of;
            notices = verdict same_hex id (with_other o p) ∷ v.notices;
          })
          (erase-insert id _ v.pending))

  settled_put :
      (n : Notice) (p q : PendingVerification) (v : Verifier)
      → q.verify_item_id ≡ p.verify_item_id
      → settled n q (put_pending id q v) ≡ settled n p v
  settled_put n p q v w = rw (erase-insert id q v.pending, w) refl

  -- A verification ends with the second hash, whichever comes first: the report is on both
  -- outcomes, that it matches only if both files were read and the hashes are the same, and neither
  -- the verification nor its copy is kept.
  pub verification_settles_in_either_order :
      (o o' : HashOutcome) (p : PendingVerification) (v : Verifier)
      → lookup id v.pending ≡ some p
      → p.local_finished ≡ false
      → p.other_finished ≡ false
      → (on_other_hash_finished same_hex id o' (on_local_hash_finished same_hex id o v)
          ≡ settled (report o o') p v)
        × (on_local_hash_finished same_hex id o (on_other_hash_finished same_hex id o' v)
            ≡ settled (report o o') p v)
        × (lookup id (settled (report o o') p v).pending ≡ none)
  unfolding verdict
  verification_settles_in_either_order o o' p v e l r = (
    ap (on_other_hash_finished same_hex id o') (local_waits o p v e r)
        ∙ other_settles o' (with_local o p) (put_pending id (with_local o p) v)
            (lookup-insert_self _ _) refl
        ∙ settled_put (report o o') p (with_local o p) v refl,
    ap (on_local_hash_finished same_hex id o) (other_waits o' p v e l)
        ∙ local_settles o (with_other o' p) (put_pending id (with_other o' p) v)
            (lookup-insert_self _ _) refl
        ∙ settled_put (report o o') p (with_other o' p) v refl,
    ground (arith, lookup-erase id id v.pending),
  )

module _ (t i : ℕ) (item : TransferItem) (m : TransferManager) where
  -- What cancelItem emits for an item that waits.
  cancel_item_waiting :
      index_of_id m t ≡ some i
      → get_elem? m.items i ≡ some item
      → active_index_for_item m.active i ≡ none
      → (is_queued item.status || is_paused item.status) ≡ true
      → (cancel_item t m).log
        ≡ item_updated (record item { status = TransferStatus.cancelled }) ∷ m.log
  unfolding cancel_item cancel_at cancel_waiting
  cancel_item_waiting x g idle s = ground arith

abbrev as_cancelled : TransferItem → TransferItem
as_cancelled item = record item { status = TransferStatus.cancelled }

deliver_cancelled :
    (id : ℕ) (item : TransferItem) (v : Verifier) (log : List Effect)
    → log ≡ item_updated (as_cancelled item) ∷ []
    → lookup item.id v.original_of ≡ some id
    → lookup id (deliver log v).pending ≡ none
unfolding deliver receive on_manager_item_updated follow_download fail_download
deliver_cancelled id item v log h r =
    rw (h, deliver, receive, r, on_manager_item_updated)
      (ground (arith, lookup-erase id id v.pending))

-- A verification whose copy waits in the queue, not begun or paused, cannot be cancelled: the
-- update that cancelItem emits erases the entry, and the iterator to it is used after that.
pub cancel_waiting_copy_crashes :
    (id t i : ℕ) (item : TransferItem) (p : PendingVerification) (v : Verifier)
    → lookup id v.pending ≡ some p
    → p.verify_item_id ≡ some t
    → lookup t v.original_of ≡ some id
    → index_of_id v.manager t ≡ some i
    → get_elem? v.manager.items i ≡ some item
    → item.id ≡ t
    → active_index_for_item v.manager.active i ≡ none
    → (is_queued item.status || is_paused item.status) ≡ true
    → v.manager.log ≡ []
    → (cancel id v).crashed ≡ true
unfolding cancel cancel_download with_manager
cancel_waiting_copy_crashes id t i item p v e w r x g same idle s l =
    let m : TransferManager = cancel_item t v.manager in
    let log : m.log ≡ item_updated (as_cancelled item) ∷ [] =
      cancel_item_waiting t i item v.manager x g idle s
      ∙ ap (◌∷◌ (item_updated (as_cancelled item))) l in
    let gone : lookup id (with_manager (cancel_item t) v).pending ≡ none =
      deliver_cancelled id item (record v { manager = record m { log = [] } }) m.log log
        (rw same r) in
    rw (e, w, cancel, gone, cancel_download) refl
