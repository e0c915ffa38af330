-- ===== src/Queue/Item.antt =====
-- transfer/TransferItem.h: a row of the transfer queue. Panes and backends are pointers, here
-- numbers; a null pointer is `none`. Byte counts are not negative in any item.
use zephyrftp.Base.{ℕ, Bool, true, false, [], Option, none}
use zephyrftp.Base.Text.{Text}
use zephyrftp.Backends.Protocol.{ConnectionDescriptor, no_connection}

pub data TransferDirection : Type 0 where
  local_to_remote remote_to_local local_to_local remote_to_remote : TransferDirection
  move edit_download edit_upload unsupported : TransferDirection

pub data TransferPhase : Type 0 where
  idle downloading uploading : TransferPhase

pub data TransferStatus : Type 0 where
  queued in_progress paused done failed cancelled skipped pending_reconnect : TransferStatus

-- errorMessage: the texts that the queue writes itself, or a reason that a backend reported.
pub data Message : Type 0 where
  blank : Message
  reported : Text → Message
  destination_changed : Message
  no_backend : Message
  cannot_merge : Text → Message

pub record TransferItem : Type 0 where
  pub id : ℕ
  pub file_name : Text
  pub source_path : Text
  pub dest_path : Text
  pub direction : TransferDirection
  pub status : TransferStatus
  pub bytes_done : ℕ
  pub bytes_total : ℕ
  pub speed_bytes_per_sec : ℕ
  pub error_message : Message
  pub phase : TransferPhase
  pub temp_file_path : Text
  pub captured_dest_backend : Option ℕ
  pub transfer_backend_captured : Bool
  pub captured_transfer_backend : Option ℕ
  pub skip_conflict_check_on_dispatch : Bool
  pub source_pane : Option ℕ
  pub dest_pane : Option ℕ
  pub pending_connection : ConnectionDescriptor
  pub is_verification_task : Bool
  pub cleared_from_queue : Bool

-- A default-constructed item with its id.
unfoldable pub new_item : ℕ → TransferItem
new_item id = record {
  id = id;
  file_name = [];
  source_path = [];
  dest_path = [];
  direction = TransferDirection.unsupported;
  status = TransferStatus.queued;
  bytes_done = 0;
  bytes_total = 0;
  speed_bytes_per_sec = 0;
  error_message = blank;
  phase = TransferPhase.idle;
  temp_file_path = [];
  captured_dest_backend = none;
  transfer_backend_captured = false;
  captured_transfer_backend = none;
  skip_conflict_check_on_dispatch = false;
  source_pane = none;
  dest_pane = none;
  pending_connection = no_connection;
  is_verification_task = false;
  cleared_from_queue = false;
}

-- The comparisons of a status and of a direction that the program makes.
abbrev pub is_queued : TransferStatus → Bool
is_queued TransferStatus.queued = true
is_queued _ = false

abbrev pub is_paused : TransferStatus → Bool
is_paused TransferStatus.paused = true
is_paused _ = false

abbrev pub is_pending_reconnect : TransferStatus → Bool
is_pending_reconnect TransferStatus.pending_reconnect = true
is_pending_reconnect _ = false

abbrev pub is_in_progress : TransferStatus → Bool
is_in_progress TransferStatus.in_progress = true
is_in_progress _ = false

-- Failed, Cancelled or Skipped: what retryItem accepts
abbrev pub is_retryable : TransferStatus → Bool
is_retryable TransferStatus.failed = true
is_retryable TransferStatus.cancelled = true
is_retryable TransferStatus.skipped = true
is_retryable _ = false

-- Done, Failed, Cancelled or Skipped: what clearItems accepts
abbrev pub is_terminal : TransferStatus → Bool
is_terminal TransferStatus.done = true
is_terminal TransferStatus.failed = true
is_terminal TransferStatus.cancelled = true
is_terminal TransferStatus.skipped = true
is_terminal _ = false

abbrev pub is_remote_to_remote : TransferDirection → Bool
is_remote_to_remote TransferDirection.remote_to_remote = true
is_remote_to_remote _ = false

abbrev pub is_move : TransferDirection → Bool
is_move TransferDirection.move = true
is_move _ = false

abbrev pub is_downloading : TransferPhase → Bool
is_downloading TransferPhase.downloading = true
is_downloading _ = false
