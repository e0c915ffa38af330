-- ===== src/Queue/State.antt =====
-- transfer/TransferManager.h: the state of the queue.
use zephyrftp.Base.{ℕ, Bool, false, List, [], ◌∷◌, Option, none, ◌==◌, if◌then◌else◌, set}
use zephyrftp.Base.Text.{Text}
use zephyrftp.Backends.Identity.{Backend}
use zephyrftp.Queue.Item.{TransferItem}
use zephyrftp.Queue.Panes.{Pane}

pub data ConflictResolution : Type 0 where
  ask always_overwrite always_skip : ConflictResolution

-- An item that claims backends, from the moment that the scan commits to it. The timer and the
-- smoothing of the displayed speed are left out.
pub record ActiveTransfer : Type 0 where
  pub item_index : ℕ
  pub claimed_backends : List (Option ℕ)
  pub current_executor : Option ℕ
  pub cancelled : Bool
  pub reserved_destination_key : Text

pub record PendingFolder : Type 0 where
  pub source_pane : Option ℕ
  pub dest_pane : ℕ
  pub folder_name : Text
  pub is_external : Bool
  pub external_local_root_path : Text

pub record PendingMove : Type 0 where
  pub source_pane : ℕ
  pub dest_pane : ℕ
  pub name : Text
  pub is_folder : Bool

pub record DeferredExistsCheck : Type 0 where
  pub path : Text
  pub exists : Bool
  pub is_dir : Bool
  pub request_id : ℕ

-- The conflict that the open dialog asks about.
pub data Conflict : Type 0 where
  folder : PendingFolder → Conflict
  move : PendingMove → Conflict
  file : ℕ → Conflict

-- What stands on the call stack below a dialog that is open: the replies that
-- drainDeferredExistsChecks has yet to replay, and the handlers that wait to conclude.
pub data Frame : Type 0 where
  replay : DeferredExistsCheck → Frame
  conclude : Conflict → Bool → Frame

-- What the queue makes others do: calls queued to a backend, requests and signals.
pub data Effect : Type 0 where
  check_exists : ℕ → Text → ℕ → Effect
  upload_file download_file : ℕ → Text → Text → ℕ → Effect
  move_entry : ℕ → Text → Text → ℕ → Effect
  create_directory : ℕ → Text → Bool → Effect
  request_cancel request_pause : ℕ → Effect
  remove_temp_file : Text → Effect
  enumerate_folder : Option ℕ → ℕ → Text → Text → Bool → Effect
  folder_transfer_skipped : Text → Effect
  folder_transfer_finished : Text → ℕ → Effect
  item_added item_updated : TransferItem → Effect
  item_removed : ℕ → Effect
  transfer_succeeded : Effect

pub record TransferManager : Type 0 where
  pub items : List TransferItem
  pub next_id : ℕ
  pub index_by_id : List (ℕ × ℕ)
  pub scan_floor : ℕ
  pub active : List ActiveTransfer
  pub reserved_destination_keys : List Text
  pub file_conflict_resolution : ConflictResolution
  pub directory_conflict_resolution : ConflictResolution
  pub next_conflict_check_id : ℕ
  pub pending_file_conflict_checks : List (ℕ × ℕ)
  pub pending_folder_conflict_checks : List (ℕ × PendingFolder)
  pub pending_move_conflict_checks : List (ℕ × PendingMove)
  pub move_file_conflict_resolution : ConflictResolution
  pub move_directory_conflict_resolution : ConflictResolution
  -- conflictDialogInProgress, with the conflict that is asked about
  pub dialog : Option Conflict
  pub stack : List Frame
  pub deferred_exists_checks : List DeferredExistsCheck
  pub next_move_request_id : ℕ
  pub pending_move_item_id : List (ℕ × ℕ)
  -- the panes and the backends that the queue refers to
  pub panes : ℕ → Pane
  pub backends : ℕ → Backend
  -- the staging directory of the platform, and what was done so far, newest first
  pub staging_dir : Text
  -- a null pane was dereferenced: the program has no defined behaviour from there on
  pub crashed : Bool
  pub log : List Effect

-- A fresh queue over given panes.
unfoldable pub new_manager : (ℕ → Pane) → (ℕ → Backend) → Text → TransferManager
new_manager panes backends staging = record {
  items = [];
  next_id = 1;
  index_by_id = [];
  scan_floor = 0;
  active = [];
  reserved_destination_keys = [];
  file_conflict_resolution = ConflictResolution.ask;
  directory_conflict_resolution = ConflictResolution.ask;
  next_conflict_check_id = 1;
  pending_file_conflict_checks = [];
  pending_folder_conflict_checks = [];
  pending_move_conflict_checks = [];
  move_file_conflict_resolution = ConflictResolution.ask;
  move_directory_conflict_resolution = ConflictResolution.ask;
  dialog = none;
  stack = [];
  deferred_exists_checks = [];
  next_move_request_id = 1;
  pending_move_item_id = [];
  panes = panes;
  backends = backends;
  staging_dir = staging;
  crashed = false;
  log = [];
}

abbrev pub emit : Effect → TransferManager → TransferManager
emit e s = record s { log = e ∷ s.log }

-- The panes after one of them has changed.
abbrev pub set_pane : ℕ → Pane → (ℕ → Pane) → ℕ → Pane
set_pane k p panes j = if j == k then p else panes j

-- The item at an index is replaced: a write through a reference into m_items.
abbrev pub put : ℕ → TransferItem → TransferManager → TransferManager
put i item s = record s { items = set s.items i item }
