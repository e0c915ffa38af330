-- ===== src/Verify/Counting.antt =====
-- Counts of the verifications of transfer/ChecksumVerifier.cpp, begun and answered, and what an update
-- of the queue leaves of them.
use zephyrftp.Base.{
  ℕ, ◌+◌, ◌≡◌, refl, List, [], ◌∷◌, Option, none, some, arith, ◌==◌, if◌then◌else◌, option-elim,
}
use zephyrftp.Base.Text.{Text}
use zephyrftp.Base.Maps.{lookup, lookup-insert, lookup-erase}
use zephyrftp.Queue.Item.{TransferItem, TransferStatus}
use zephyrftp.Queue.State.{TransferManager, Effect, item_updated}
use zephyrftp.Verify.State.{
  PendingVerification, local_file, Reason, Notice, hash_started, verification_finished,
  verification_failed, new_pending, Verifier,
}
use zephyrftp.Verify.Operations.{
  fail_download, follow_download, on_manager_item_updated, receive, deliver, with_manager, begin,
}

-- A verification begins where the local file is hashed.
abbrev pub begins : ℕ → Notice → ℕ
begins id (hash_started (local_file j path)) = if j == id then 1 else 0
begins id _ = 0

-- The answers, without the refusals to begin.
abbrev pub answers : ℕ → Notice → ℕ
answers id (verification_finished j matched local other) = if j == id then 1 else 0
answers id (verification_failed j Reason.not_in_queue) = 0
answers id (verification_failed j Reason.not_completed) = 0
answers id (verification_failed j Reason.unsupported_type) = 0
answers id (verification_failed j _) = if j == id then 1 else 0
answers id _ = 0

unfoldable pub times_begun : ℕ → List Notice → ℕ
times_begun id [] = 0
times_begun id (n ∷ ns) = begins id n + times_begun id ns

unfoldable pub times_answered : ℕ → List Notice → ℕ
times_answered id [] = 0
times_answered id (n ∷ ns) = answers id n + times_answered id ns

abbrev pub under_way : Option PendingVerification → ℕ
under_way none = 0
under_way (some p) = 1

abbrev pub routed_to : Option PendingVerification → Option ℕ
routed_to none = none
routed_to (some p) = p.verify_item_id

pub record Accounts (v : Verifier) : Type 0 where
  -- what has begun is answered or under way
  pub accounted :
      (id : ℕ)
      → times_begun id v.notices ≡ times_answered id v.notices + under_way (lookup id v.pending)
  -- a copy that is awaited belongs to a verification that waits for it
  pub routed :
      (t id : ℕ) → lookup t v.original_of ≡ some id → routed_to (lookup id v.pending) ≡ some t

pub begin-Accounts :
    (id : ℕ) (path : Text) (v : Verifier)
    → lookup id v.pending ≡ none
    → Accounts v
    → Accounts (begin id path v)
unfolding times_begun times_answered
begin-Accounts id path v fresh h = record {
  accounted = λ j. ground (arith, h.accounted j, lookup-insert id j new_pending v.pending);
  routed = λ t j e. ground (arith, h.routed t j, lookup-insert id j new_pending v.pending);
}

fail_download-Accounts :
    (id : ℕ) (item : TransferItem) (reason : Reason) (v : Verifier)
    → ((j : ℕ) → answers j (verification_failed id reason) ≡ (if id == j then 1 else 0))
    → lookup item.id v.original_of ≡ some id
    → Accounts v
    → Accounts (fail_download item.id id item reason v)
unfolding times_begun times_answered fail_download
fail_download-Accounts id item reason v r e h = record {
  accounted =
      λ j. ground (arith, r j, h.accounted j, h.routed item.id id, lookup-erase id j v.pending);
  routed = λ t j e'. ground (
    arith,
    h.routed t j,
    h.routed item.id id,
    lookup-erase id j v.pending,
    lookup-erase item.id t v.original_of,
  );
}

follow_download-Accounts :
    (status : TransferStatus) (id : ℕ) (item : TransferItem) (v : Verifier)
    → lookup item.id v.original_of ≡ some id
    → Accounts v
    → Accounts (follow_download status id item v)
unfolding follow_download times_begun times_answered
follow_download-Accounts TransferStatus.in_progress id item v e h = record {
  accounted = λ j. omega (arith, h.accounted j);
  routed = h.routed;
}
follow_download-Accounts TransferStatus.done id item v e h = record {
  accounted = λ j. omega (arith, h.accounted j);
  routed = h.routed;
}
follow_download-Accounts TransferStatus.failed id item v e h =
    fail_download-Accounts id item (Reason.not_downloaded item.error_message) v (λ j. refl) e h
follow_download-Accounts TransferStatus.cancelled id item v e h =
    fail_download-Accounts id item Reason.cancelled v (λ j. refl) e h
follow_download-Accounts _ id item v e h = h

on_manager_item_updated-Accounts :
    (item : TransferItem) (v : Verifier) → Accounts v → Accounts (on_manager_item_updated item v)
unfolding on_manager_item_updated
on_manager_item_updated-Accounts item v h =
    option-elim Accounts (lookup item.id v.original_of) _ _ (λ _. h)
      (λ id e. follow_download-Accounts item.status id item v e h)

receive-Accounts : (e : Effect) (v : Verifier) → Accounts v → Accounts (receive e v)
unfolding receive
receive-Accounts (item_updated item) v h = on_manager_item_updated-Accounts item v h
receive-Accounts _ v h = h

pub deliver-Accounts : (es : List Effect) (v : Verifier) → Accounts v → Accounts (deliver es v)
unfolding deliver
deliver-Accounts [] v h = h
deliver-Accounts (e ∷ es) v h = receive-Accounts e (deliver es v) (deliver-Accounts es v h)

-- Nothing but the verifier's own fields counts.
pub same_fields-Accounts :
    (v v' : Verifier)
    → v'.pending ≡ v.pending
    → v'.original_of ≡ v.original_of
    → v'.notices ≡ v.notices
    → Accounts v
    → Accounts v'
same_fields-Accounts v v' p o n h = record {
  accounted = λ j. rw (p, n) (h.accounted j);
  routed = λ t j e. rw p (h.routed t j (rw o at e));
}

pub with_manager-Accounts :
    (f : TransferManager → TransferManager) (v : Verifier)
    → Accounts v
    → Accounts (with_manager f v)
unfolding with_manager
with_manager-Accounts f v h =
    deliver-Accounts (f v.manager).log _ (same_fields-Accounts v _ refl refl refl h)
