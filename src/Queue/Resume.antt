-- ===== src/Queue/Resume.antt =====
-- A shutdown, a restart and a reconnection: saveQueueForShutdown, restorePersistedQueue and
-- tryReclaimPendingItems of transfer/TransferManager.cpp, one after the other.
use zephyrftp.Base.{ℕ, List}
use zephyrftp.Base.Text.{Text}
use zephyrftp.Backends.Identity.{Backend}
use zephyrftp.Queue.Panes.{Pane}
use zephyrftp.Queue.State.{TransferManager, new_manager}
use zephyrftp.Queue.Persist.{save_queue_for_shutdown, restore_persisted_queue}

-- The queue of a program that starts with what another one has saved.
abbrev pub restarted : (ℕ → Pane) → (ℕ → Backend) → Text → ℕ → TransferManager → TransferManager
restarted panes backends staging executor s =
    restore_persisted_queue executor (save_queue_for_shutdown s)
      (new_manager panes backends staging)
