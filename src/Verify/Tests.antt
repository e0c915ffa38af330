-- ===== src/Verify/Tests.antt =====
-- A verification of an upload over a queue with two panes.
use zephyrftp.Base.{◌+◌, ◌≡◌, refl, true, false, List, [], ◌∷◌, none, some}
use zephyrftp.Base.Text.{Text, codes, text_eq}
use zephyrftp.Base.Maps.{lookup}
use zephyrftp.Queue.Item.{TransferItem, new_item, TransferDirection}
use zephyrftp.Queue.State.{TransferManager}
use zephyrftp.Queue.Events.{transfer_finished, edit_opened}
use zephyrftp.Queue.Runs.{run, two_uploads}
use zephyrftp.Verify.State.{
  HashOutcome, Verifier, VerifierEvent, verify_asked, hashed, local_file, PendingVerification,
  new_pending,
}
use zephyrftp.Verify.Operations.{run_all, cancel, on_local_hash_finished, on_other_hash_finished}
use zephyrftp.Verify.Counting.{times_begun, times_answered, under_way}
use zephyrftp.Verify.Answers.{verification_answered_once}
use zephyrftp.Verify.Verdicts.{
  verification_settles_in_either_order, cancel_waiting_copy_crashes, report, settled,
}

abbrev finished_upload : TransferManager
unfolding run
finished_upload = record (run (transfer_finished 1 ∷ two_uploads)) { log = [] }

abbrev unread : HashOutcome
unread = record { ok = false; hex = []; error_string = codes "gone" }

abbrev read_as : Text → HashOutcome
read_as hex = record { ok = true; hex = hex; error_string = [] }

abbrev one_answer : List VerifierEvent
one_answer = hashed (local_file 1 (codes "/home/a.txt")) unread ∷ (verify_asked 1 ∷ [])

verification_answered_once_example :
    times_begun 1 (run_all text_eq finished_upload one_answer).notices
    ≡ times_answered 1 (run_all text_eq finished_upload one_answer).notices
      + under_way (lookup 1 (run_all text_eq finished_upload one_answer).pending)
unfolding run run_all
verification_answered_once_example =
    verification_answered_once text_eq finished_upload one_answer 1 refl

-- The copy that the verification awaits is the third item.
abbrev awaiting : PendingVerification
awaiting = record new_pending { verify_item_id = some 3 }

abbrev asked : Verifier
unfolding run run_all
asked = run_all text_eq finished_upload (verify_asked 1 ∷ [])

abbrev same_bytes : HashOutcome
same_bytes = read_as (codes "9f86")

verification_settles_in_either_order_example :
    (on_other_hash_finished text_eq 1 same_bytes (on_local_hash_finished text_eq 1 same_bytes asked)
      ≡ settled text_eq 1 (report text_eq 1 same_bytes same_bytes) awaiting asked)
    × (on_local_hash_finished text_eq 1 same_bytes
          (on_other_hash_finished text_eq 1 same_bytes asked)
        ≡ settled text_eq 1 (report text_eq 1 same_bytes same_bytes) awaiting asked)
    × (lookup 1 (settled text_eq 1 (report text_eq 1 same_bytes same_bytes) awaiting asked).pending
        ≡ none)
unfolding run run_all
verification_settles_in_either_order_example =
    verification_settles_in_either_order text_eq 1 same_bytes same_bytes awaiting asked refl refl
      refl

-- All connections are in use, so the copy waits.
abbrev busy_queue : TransferManager
unfolding run
busy_queue =
    record (run (
      edit_opened 1 (codes "y")
      ∷ (edit_opened 1 (codes "x") ∷ (transfer_finished 1 ∷ two_uploads)))) { log = [] }

abbrev copy_waits : Verifier
unfolding run run_all
copy_waits = run_all text_eq busy_queue (verify_asked 1 ∷ [])

abbrev waiting_copy : TransferItem
waiting_copy = record (new_item 5) {
  file_name = codes "a.txt";
  source_path = codes "/srv/a.txt";
  dest_path = codes "/tmp/verify_5_a.txt";
  direction = TransferDirection.edit_download;
  source_pane = some 1;
  skip_conflict_check_on_dispatch = true;
  is_verification_task = true;
}

cancel_waiting_copy_crashes_example : (cancel 1 copy_waits).crashed ≡ true
unfolding run run_all
cancel_waiting_copy_crashes_example =
    cancel_waiting_copy_crashes 1 5 4 waiting_copy (record new_pending { verify_item_id = some 5 })
      copy_waits refl refl refl refl refl refl refl refl refl
