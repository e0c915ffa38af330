-- ===== src/Verify/State.antt =====
-- transfer/ChecksumVerifier.h: the verifications that are under way, over the queue that it uses.
use zephyrftp.Base.{ℕ, Bool, false, List, [], ◌∷◌, Option, none}
use zephyrftp.Base.Text.{Text}
use zephyrftp.Queue.Item.{Message}
use zephyrftp.Queue.State.{TransferManager}
use zephyrftp.Queue.Events.{Event}

pub record PendingVerification : Type 0 where
  pub local_hex : Text
  pub local_ok : Bool
  pub local_finished : Bool
  pub local_error : Text
  pub other_hex : Text
  pub other_ok : Bool
  pub other_finished : Bool
  pub other_error : Text
  -- `none` is -1: both files are local
  pub verify_item_id : Option ℕ

abbrev pub new_pending : PendingVerification
new_pending = record {
  local_hex = [];
  local_ok = false;
  local_finished = false;
  local_error = [];
  other_hex = [];
  other_ok = false;
  other_finished = false;
  other_error = [];
  verify_item_id = none;
}

pub record HashOutcome : Type 0 where
  pub ok : Bool
  pub hex : Text
  pub error_string : Text

-- The files that are hashed in the background, each for the item that is verified.
pub data HashTask : Type 0 where
  local_file other_file remote_copy : ℕ → Text → HashTask

-- The texts that verificationFailed carries.
pub data Reason : Type 0 where
  not_in_queue not_completed unsupported_type cancelled : Reason
  local_unreadable other_unreadable : Text → Reason
  not_downloaded : Message → Reason

pub data Notice : Type 0 where
  hash_started : HashTask → Notice
  file_removed : Text → Notice
  verification_progress : ℕ → ℕ → ℕ → Notice
  verification_finished : ℕ → Bool → Text → Text → Notice
  verification_failed : ℕ → Reason → Notice

pub record Verifier : Type 0 where
  pub manager : TransferManager
  pub pending : List (ℕ × PendingVerification)
  pub original_of : List (ℕ × ℕ)
  -- what the verifier did so far, newest first
  pub notices : List Notice
  -- an iterator was used after its entry was erased, or a null pane
  pub crashed : Bool

unfoldable pub new_verifier : TransferManager → Verifier
new_verifier manager = record {
  manager = manager;
  pending = [];
  original_of = [];
  notices = [];
  crashed = false;
}

abbrev pub note : Notice → Verifier → Verifier
note n v = record v { notices = n ∷ v.notices }

-- Everything that happens to a verifier.
pub data VerifierEvent : Type 0 where
  verify_asked cancel_verification : ℕ → VerifierEvent
  hashed : HashTask → HashOutcome → VerifierEvent
  queue_event : Event → VerifierEvent
