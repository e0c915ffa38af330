-- ===== src/Runner/State.antt =====
-- cli/ScriptRunner.h: a script under way. The functions that ScriptRunner.cpp connects to signals are the
-- entries of a list, each with what it captures.
use zephyrftp.Base.{ℕ, Bool, true, false, List, [], ◌∷◌, ◌++◌, Option}
use zephyrftp.Base.Text.{Text}
use zephyrftp.Backends.Entry.{RemoteEntry}
use zephyrftp.Queue.Item.{TransferStatus, Message}
use zephyrftp.Script.Commands.{ScriptCommand}
use zephyrftp.Sites.Requests.{ConnectionRequest}
use zephyrftp.Sites.Store.{SavedSite}
use zephyrftp.Compare.Comparer.{CompareEntry}

pub data PaneName : Type 0 where
  local remote : PaneName

pub record ScriptPane : Type 0 where
  pub backend : ℕ
  pub current_directory : Text

-- What a navigation is waited for.
pub data Arrival : Type 0 where
  local_ready remote_ready opened cd_done lcd_done : Arrival
  mirror_local : Text → Bool → Arrival
  mirror_remote : Bool → Arrival

pub data FileOp : Type 0 where
  rm mkdir mv : FileOp

pub data Transfer : Type 0 where
  get put : Transfer

-- The connections that wait for one outcome. A backend is its number.
pub data Wait : Type 0 where
  navigation : PaneName → ℕ → Arrival → Wait
  file_operation : ℕ → FileOp → Wait
  existence : ℕ → Text → ℕ → Wait
  addition : Transfer → Wait
  transfer : ℕ → Transfer → Wait
  listing : ℕ → Wait
  comparison : Bool → Wait
  -- the items that are pending, and what is deleted behind them
  copying : List ℕ → List CompareEntry → Wait
  -- how many deletions remain
  deletion : ℕ → ℕ → Wait

pub data Signal : Type 0 where
  directory_changed : PaneName → Text → Signal
  connection_failed : ℕ → Text → Signal
  directory_listed : ℕ → List RemoteEntry → Signal
  file_operation_failed : ℕ → Text → Signal
  exists_checked : ℕ → Bool → Bool → ℕ → Signal
  item_added : ℕ → Signal
  item_updated : ℕ → TransferStatus → Message → Signal
  compare_failed : Text → Signal
  compare_finished : List CompareEntry → Signal

-- The texts of the errors differ in these.
pub data RunError : Type 0 where
  no_site several_sites no_password : ℕ → Text → RunError
  arrival_failed : Arrival → Text → RunError
  operation_failed : FileOp → Text → RunError
  nothing_to_remove : Text → RunError
  transfer_failed : Transfer → Message → RunError
  compare_error : Text → RunError

pub data Action : Type 0 where
  printed : Text → Action
  entry_printed : RemoteEntry → Action
  error_printed : RunError → Action
  exited : ℕ → Action
  -- setBackend with a new backend for a request, and the secret that is stored for it
  attach : ℕ → ConnectionRequest → Text → Action
  navigate_to : PaneName → Text → Action
  enqueue : PaneName → PaneName → Text → Action
  list_directory : ℕ → Text → Action
  check_exists : ℕ → Text → ℕ → Action
  delete_entry : ℕ → Text → Bool → Action
  create_directory : ℕ → Text → Action
  rename_entry : ℕ → Text → Text → Action
  compare_directories : ℕ → Text → ℕ → Text → Action
  copy_selected : List CompareEntry → Action

pub record ScriptRunner : Type 0 where
  pub commands : List ScriptCommand
  pub index : ℕ
  pub finished : Bool
  pub local_pane : ScriptPane
  pub remote_pane : ScriptPane
  pub next_request_id : ℕ
  -- the number of the backend that is constructed next
  pub next_backend : ℕ
  -- in the order in which they were connected
  pub waits : List Wait
  -- what the runner did so far, newest first
  pub log : List Action
  -- an argument was read that is not there
  pub crashed : Bool

-- What the runner reads of the saved sites and the credential store, compare with
-- Qt::CaseInsensitive, and std::sort of the directories that are deleted.
pub record Surroundings : Type 0 where
  pub sites : List SavedSite
  pub same_name : Text → Text → Bool
  pub sort : (CompareEntry → CompareEntry → Bool) → List CompareEntry → List CompareEntry
  -- `none` where nothing is stored
  pub secret_of : Text → Option Text

unfoldable pub new_runner : Text → Text → ScriptRunner
new_runner local_directory remote_directory = record {
  commands = [];
  index = 0;
  finished = false;
  local_pane = record { backend = 0; current_directory = local_directory };
  remote_pane = record { backend = 1; current_directory = remote_directory };
  next_request_id = 1;
  next_backend = 2;
  waits = [];
  log = [];
  crashed = false;
}

abbrev pub act : Action → ScriptRunner → ScriptRunner
act a r = record r { log = a ∷ r.log }

-- connect
abbrev pub await : Wait → ScriptRunner → ScriptRunner
await w r = record r { waits = r.waits ++ w ∷ [] }

unfoldable pub fail : RunError → ScriptRunner → ScriptRunner
fail e r = elim r.finished [
  | true ↦ r
  | false ↦ record r { finished = true; log = exited 2 ∷ (error_printed e ∷ r.log) }
]

unfoldable pub succeed : ScriptRunner → ScriptRunner
succeed r = elim r.finished [
  | true ↦ r
  | false ↦ record r { finished = true; log = exited 0 ∷ r.log }
]
