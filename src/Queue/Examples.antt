-- ===== src/Queue/Examples.antt =====
-- Concrete uses of what is proved of the queue's parts.
use zephyrftp.Base.{ℕ, ◌-◌, ◌≡◌, refl, Bool, [], ◌∷◌, some, inl, inr, arith, length, ltb}
use zephyrftp.Base.Text.{codes, text_eq_refl}
use zephyrftp.Backends.Protocol.{ConnectionDescriptor, no_connection, is_unconnected, Protocol}
use zephyrftp.Backends.Identity.{sftp, connection_identity}
use zephyrftp.Queue.Item.{TransferItem, TransferDirection, TransferStatus, new_item}
use zephyrftp.Queue.Panes.{Pane, pick_idle_transfer_backend}
use zephyrftp.Queue.State.{TransferManager, new_manager}
use zephyrftp.Queue.Dispatch.{scan, advance_floor, reset_resolutions, start_next}
use zephyrftp.Queue.Enqueue.{move_eligible}
use zephyrftp.Queue.Store.{PersistedTransferItem, load, save}
use zephyrftp.Queue.Persist.{
  is_persisted_direction, save_queue_for_shutdown, restore_persisted_queue,
}
use zephyrftp.Queue.Restart.{IsStorable, load-save, save_queue_for_shutdown-restore_persisted_queue}
use zephyrftp.Queue.Resume.{restarted}
use zephyrftp.Queue.Fuel.Enough.{start_next_recursion}
use zephyrftp.Queue.Keys.{destination_reservation_key_injective, move_eligible_same_kind, kind_of}
use zephyrftp.Queue.Pools.{IsPick, pick_idle_transfer_backend_lem}

abbrev a_server : ConnectionDescriptor
a_server = record {
  saved_site_id = [];
  protocol = Protocol.ftps;
  host = codes "example.org";
  port = 2121;
  username = codes "ann";
}

abbrev a_pane : Pane
a_pane = record {
  backend = 1;
  current_directory = codes "/srv";
  connection_descriptor = a_server;
  pool_backends = 4 ∷ [];
  max_pool_size = 3;
  pool_factory = some (5 ∷ []);
}

abbrev a_queue : TransferManager
a_queue =
    new_manager (λ p. a_pane) (λ b. sftp (codes "ann") (codes "example.org") 22) (codes "/tmp")

abbrev an_entry : PersistedTransferItem
an_entry = record {
  file_name = codes "a.txt";
  source_path = codes "/home/a.txt";
  dest_path = codes "/srv/a.txt";
  direction = TransferDirection.local_to_remote;
  bytes_done = 10;
  bytes_total = 30;
  source_connection = no_connection;
  dest_connection = a_server;
}

an_entry-IsStorable : IsStorable an_entry
unfolding is_persisted_direction is_unconnected
an_entry-IsStorable = record {
  persisted = refl;
  has_source = refl;
  has_dest = refl;
  exact_done = omega arith;
  exact_total = omega arith;
  source_described = inl refl;
  dest_described = inr refl;
}

-- A double that is exact throughout.
load-save_example : load (λ n. n) (some (save (an_entry ∷ []))) ≡ an_entry ∷ []
load-save_example = load-save (λ n. n) (λ n h. refl) (an_entry ∷ []) (an_entry-IsStorable, tt)

save_restored_example :
    save_queue_for_shutdown (restore_persisted_queue 0 (an_entry ∷ []) a_queue) ≡ []
save_restored_example =
    save_queue_for_shutdown-restore_persisted_queue (λ p. a_pane)
      (λ b. sftp (codes "ann") (codes "example.org") 22) (codes "/tmp") 0 (an_entry ∷ [])
      (inl refl, tt)

abbrev an_upload : TransferItem
an_upload = record (new_item 7) {
  file_name = codes "a.txt";
  source_path = codes "/home/a.txt";
  dest_path = codes "/srv/a.txt";
  direction = TransferDirection.local_to_remote;
  bytes_done = 10;
  bytes_total = 30;
  source_pane = some 0;
  dest_pane = some 1;
}

-- A queue with a download that has completed and an upload that was under way.
abbrev busy_queue : TransferManager
busy_queue = record a_queue {
  items =
      record an_upload {
        direction = TransferDirection.remote_to_local;
        status = TransferStatus.done;
      }
      ∷ (record an_upload { status = TransferStatus.in_progress } ∷ []);
}

abbrev after_start : TransferManager
unfolding new_manager
after_start =
    restarted (λ p. a_pane) (λ b. sftp (codes "ann") (codes "example.org") 22) (codes "/tmp") 0
      busy_queue

start_next_recursion_example :
    start_next a_queue
    ≡ reset_resolutions (
        advance_floor
          (scan start_next (length a_queue.items - a_queue.scan_floor) a_queue.scan_floor a_queue))
start_next_recursion_example = start_next_recursion a_queue

destination_reservation_key_injective_example :
    (codes "sftp://ann@example.org:22" ≡ codes "sftp://ann@example.org:22")
    × (codes "/srv/a.txt" ≡ codes "/srv/a.txt")
destination_reservation_key_injective_example =
    destination_reservation_key_injective (codes "sftp://ann@example.org:22")
      (codes "sftp://ann@example.org:22") (codes "/srv/a.txt") (codes "/srv/a.txt") refl refl refl

move_eligible_same_kind_example :
    (kind_of (a_queue.backends (a_queue.panes 0).backend)
      ≡ kind_of (a_queue.backends (a_queue.panes 1).backend))
    × (connection_identity (a_queue.backends (a_queue.panes 0).backend)
        ≡ connection_identity (a_queue.backends (a_queue.panes 1).backend))
unfolding move_eligible new_manager connection_identity
move_eligible_same_kind_example =
    move_eligible_same_kind a_queue 0 1
      (text_eq_refl (connection_identity (sftp (codes "ann") (codes "example.org") 22)))

-- The own connection and the one of the pool are claimed: a third one is built.
abbrev is_taken : ℕ → Bool
is_taken b = ltb b 5

pick_idle_transfer_backend_example :
    IsPick is_taken a_pane (pick_idle_transfer_backend is_taken a_pane)
pick_idle_transfer_backend_example =
    pick_idle_transfer_backend_lem is_taken a_pane (refl, tt) (omega arith)
