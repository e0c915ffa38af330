-- ===== src/Queue/Dispatch.antt =====
-- startNext of transfer/TransferManager.cpp: the scan for Queued items that can run. `again` is the scan
-- that follows an item that failed at once.
use zephyrftp.Base.{
  ℕ, zero, suc, ◌-◌, Bool, true, false, ◌||◌, ◌&&◌, not, List, [], ◌∷◌, ◌++◌, Option, none, some,
  if◌then◌else◌, get_elem?, set, length, drop, null,
}
use zephyrftp.Base.Text.{is_empty}
use zephyrftp.Base.Maps.{insert}
use zephyrftp.Queue.Item.{TransferItem, TransferDirection, is_queued}
use zephyrftp.Queue.Panes.{Pane, pick_idle_transfer_backend, has_transfer_pool}
use zephyrftp.Queue.State.{
  TransferManager, ActiveTransfer, ConflictResolution, check_exists, put, set_pane,
}
use zephyrftp.Queue.Lookup.{
  required_backends_for_dispatch, pool_pane_for_item, is_claimed, any_busy, active_index_for_item,
  has_key, reservation_key,
}
use zephyrftp.Queue.Execute.{dispatch_active_item}

-- A backend of the pool is bound to the item, if the pane has one to give.
unfoldable pub bind_picked :
    ℕ → ℕ → TransferItem → Option ℕ × Pane → TransferManager → TransferManager
bind_picked i p item (none, pane) s = s
bind_picked i p item (some b, pane) s = record s {
  items =
      set s.items i
        (record item { transfer_backend_captured = true; captured_transfer_backend = some b });
  panes = set_pane p pane s.panes;
}

unfoldable pub bind_from_pool : ℕ → TransferItem → Option ℕ → TransferManager → TransferManager
unfolding bind_picked
bind_from_pool i item none s = s
bind_from_pool i item (some p) s =
    bind_picked i p item (pick_idle_transfer_backend (is_claimed s.active) (s.panes p)) s

abbrev pub is_none {ℓ} : {A : Type ℓ} → Option A → Bool
is_none none = true
is_none (some a) = false

-- The attempt to grow the pool, for an item that waits for a busy connection.
unfoldable pub bind_backend : ℕ → TransferItem → TransferManager → TransferManager
unfolding bind_from_pool
bind_backend i item s =
    if any_busy s.active (required_backends_for_dispatch s item)
      && (not item.transfer_backend_captured && is_none (active_index_for_item s.active i))
    then bind_from_pool i item (pool_pane_for_item item) s
    else s

-- whether the item must wait: for a backend, or for its destination
unfoldable pub must_wait : TransferManager → TransferItem → Bool
must_wait s item =
    any_busy s.active (required_backends_for_dispatch s item)
    || (not (is_empty (reservation_key s item))
        && has_key (reservation_key s item) s.reserved_destination_keys)

-- The entry is appended, with its reservation.
unfoldable pub claim : ℕ → TransferItem → TransferManager → TransferManager
claim i item s = record s {
  active =
      s.active
      ++ (record {
        item_index = i;
        claimed_backends = required_backends_for_dispatch s item;
        current_executor = none;
        cancelled = false;
        reserved_destination_key = reservation_key s item;
      }
          ∷ []);
  reserved_destination_keys =
      (if is_empty (reservation_key s item)
        then s.reserved_destination_keys
        else reservation_key s item ∷ s.reserved_destination_keys);
}

-- The backend that the existence check goes to: the bound one for an upload, else the primary.
unfoldable pub check_backend : TransferDirection → Option ℕ → ℕ → ℕ
check_backend TransferDirection.local_to_remote (some b) primary = b
check_backend TransferDirection.local_to_local (some b) primary = b
check_backend TransferDirection.edit_upload (some b) primary = b
check_backend _ _ primary = primary

-- The conflict check goes out. A null destination pane is dereferenced here.
unfoldable pub send_check : ℕ → TransferItem → Option ℕ → TransferManager → TransferManager
unfolding check_backend
send_check i item none s = record s { crashed = true }
send_check i item (some p) s = record s {
  next_conflict_check_id = suc s.next_conflict_check_id;
  pending_file_conflict_checks = insert s.next_conflict_check_id i s.pending_file_conflict_checks;
  log =
      check_exists (check_backend item.direction item.captured_transfer_backend (s.panes p).backend)
        item.dest_path s.next_conflict_check_id
      ∷ s.log;
}

-- The item is claimed, and dispatched at once or checked for a conflict.
unfoldable pub commit :
    (TransferManager → TransferManager) → ℕ → TransferItem → TransferManager → TransferManager
commit again i item s =
    if item.skip_conflict_check_on_dispatch
    then dispatch_active_item again i
        (put i (record item { skip_conflict_check_on_dispatch = false }) (claim i item s))
    else send_check i item item.dest_pane (claim i item s)

-- The part of the loop's body behind the attempt to grow the pool.
unfoldable pub admit : (TransferManager → TransferManager) → ℕ → TransferManager → TransferManager
admit again i s = elim (get_elem? s.items i) [
  | none ↦ s
  | some item ↦ if must_wait s item then s else commit again i item s
]

-- The body of the loop.
unfoldable pub visit : (TransferManager → TransferManager) → ℕ → TransferManager → TransferManager
visit again i s = elim (get_elem? s.items i) [
  | none ↦ s
  | some item ↦ if is_queued item.status then admit again i (bind_backend i item s) else s
]

-- The loop, with the rounds that are left.
unfoldable pub scan :
    (TransferManager → TransferManager) → ℕ → ℕ → TransferManager → TransferManager
scan again zero i s = s
scan again (suc n) i s = scan again n (suc i) (visit again i s)

-- The floor moves past the leading items that are not queued.
unfoldable pub skip_resolved : List TransferItem → ℕ → ℕ
skip_resolved [] k = k
skip_resolved (item ∷ items) k =
    let further = skip_resolved items (suc k) in if is_queued item.status then k else further

unfoldable pub advance_floor : TransferManager → TransferManager
unfolding skip_resolved
advance_floor s = record s { scan_floor = skip_resolved (drop s.scan_floor s.items) s.scan_floor }

-- With nothing left to run, the remembered answers are forgotten.
unfoldable pub reset_resolutions : TransferManager → TransferManager
reset_resolutions s =
    if null s.active
      && (null s.pending_file_conflict_checks && null s.pending_folder_conflict_checks)
    then record s {
      file_conflict_resolution = ConflictResolution.ask;
      directory_conflict_resolution = ConflictResolution.ask;
    }
    else s

-- startNext, with fuel for the inner scans
unfoldable pub start_next_fuel : ℕ → TransferManager → TransferManager
unfolding scan advance_floor reset_resolutions
start_next_fuel zero s = s
start_next_fuel (suc fuel) s =
    reset_resolutions
      (advance_floor (scan (start_next_fuel fuel) (length s.items - s.scan_floor) s.scan_floor s))

-- startNext: an inner scan comes after an item has left the queue, so this fuel is enough.
unfoldable pub start_next : TransferManager → TransferManager
unfolding start_next_fuel
start_next s = start_next_fuel (suc (length s.items)) s

-- the first of the backends is free
unfoldable pub any_free : List ActiveTransfer → List (Option ℕ) → Bool
any_free as' [] = false
any_free as' (none ∷ rs) = true
any_free as' (some b ∷ rs) = not (is_claimed as' b) || any_free as' rs

abbrev pub pane_has_pool : TransferManager → Option ℕ → Bool
pane_has_pool s none = false
pane_has_pool s (some p) = has_transfer_pool (s.panes p)

-- startNextIfLikelyToDispatch
unfoldable pub start_next_if_likely_to_dispatch : TransferItem → TransferManager → TransferManager
start_next_if_likely_to_dispatch item s =
    if null s.active
      || (any_free s.active (required_backends_for_dispatch s item)
          || pane_has_pool s (pool_pane_for_item item))
    then start_next s
    else s
