-- ===== src/Queue/Continued.antt =====
-- The items that a shutdown, a restart and a reconnection make of those of the queue:
-- restorePersistedQueue and tryReclaimPendingItems of transfer/TransferManager.cpp, item by item.
use zephyrftp.Base.{
  append_assoc, append_nil, ℕ, suc, ◌≡◌, if-elim, refl, ap, sym, ◌∙◌, true, false, Bool-cases, List,
  [], ◌∷◌, ◌++◌, some, ◌⊎◌, inl, inr, arith, ltb, if◌then◌else◌, All, ==_refl,
}
use zephyrftp.Base.Text.{text_eq_refl}
use zephyrftp.Backends.Protocol.{ConnectionDescriptor, protocol_eq_refl}
use zephyrftp.Queue.Item.{TransferItem, TransferDirection, new_item}
use zephyrftp.Queue.State.{TransferManager}
use zephyrftp.Queue.Enqueue.{append_item}
use zephyrftp.Queue.Store.{PersistedTransferItem}
use zephyrftp.Queue.Persist.{
  connection_of, persisted_item, persisted_items, is_saved, restored_item, restore_one, restore_all,
  same_connection, reclaimed_item, reclaim_one, item_or, reclaim_items, reclaimed,
}
use zephyrftp.Queue.Restart.{IsRemoteEntry}

-- An item that is not saved, or that is a transfer to or from this server.
abbrev pub IsFor : ConnectionDescriptor → TransferManager → TransferItem → Type 0
IsFor d s item =
    (is_saved s item ≡ false)
    ⊎ (((item.direction ≡ TransferDirection.local_to_remote) × (connection_of s item.dest_pane ≡ d))
        ⊎ ((item.direction ≡ TransferDirection.remote_to_local)
            × (connection_of s item.source_pane ≡ d)))

-- A new Queued item between the same paths, for the same bytes, between the pane of the local side
-- and the one that reconnected. Only one that has done nothing asks about its destination.
abbrev pub continued :
    ℕ → ℕ → ConnectionDescriptor → ℕ → TransferDirection → TransferItem → TransferItem
continued executor p d id TransferDirection.local_to_remote item = record (new_item id) {
  file_name = item.file_name;
  source_path = item.source_path;
  dest_path = item.dest_path;
  direction = TransferDirection.local_to_remote;
  bytes_done = item.bytes_done;
  bytes_total = item.bytes_total;
  source_pane = some executor;
  dest_pane = some p;
  pending_connection = d;
  skip_conflict_check_on_dispatch = ltb 0 item.bytes_done;
}
continued executor p d id _ item = record (new_item id) {
  file_name = item.file_name;
  source_path = item.source_path;
  dest_path = item.dest_path;
  direction = TransferDirection.remote_to_local;
  bytes_done = item.bytes_done;
  bytes_total = item.bytes_total;
  source_pane = some p;
  dest_pane = some executor;
  pending_connection = d;
  skip_conflict_check_on_dispatch = ltb 0 item.bytes_done;
}

-- The items that are continued, under new ids from this one on.
unfoldable pub continued_items :
    TransferManager → ℕ → ℕ → ConnectionDescriptor → ℕ → List TransferItem → List TransferItem
unfolding new_item
continued_items s executor p d id [] = []
continued_items s executor p d id (item ∷ items) =
    let rest = continued_items s executor p d (suc id) items in
    let same = continued_items s executor p d id items in
    if is_saved s item then continued executor p d id item.direction item ∷ rest else same

-- The items that entries are restored to.
unfoldable pub restored_items : ℕ → ℕ → List PersistedTransferItem → List TransferItem
unfolding restored_item new_item
restored_items executor id [] = []
restored_items executor id (e ∷ es) =
    item_or (new_item id) (restored_item id executor e.direction e)
    ∷ restored_items executor (suc id) es

restore_one_lem :
    (executor : ℕ) (e : PersistedTransferItem) (m : TransferManager)
    → IsRemoteEntry e
    → restore_one executor e m
      ≡ append_item
          (item_or (new_item m.next_id) (restored_item m.next_id executor e.direction e))
          m
unfolding restore_one restored_item
restore_one_lem executor e m (inl d) = rw d refl
restore_one_lem executor e m (inr d) = rw d refl

-- What is restored is appended under the next ids, and no pane changes.
pub restore_all_lem :
    (executor : ℕ) (es : List PersistedTransferItem) (m : TransferManager)
    → All IsRemoteEntry es
    → ((restore_all executor es m).items ≡ m.items ++ restored_items executor m.next_id es)
      × ((restore_all executor es m).panes ≡ m.panes)
unfolding restore_all restored_items append_item
restore_all_lem executor [] m h = (sym (append_nil m.items), refl)
restore_all_lem executor (e ∷ es) m h =
    let x = item_or (new_item m.next_id) (restored_item m.next_id executor e.direction e) in
    let one = ap (restore_all executor es) (restore_one_lem executor e m h.0) in
    let (items, panes) = restore_all_lem executor es (append_item x m) h.1 in
    (
      ap (λ (t : TransferManager). t.items) one
          ∙ (items ∙ append_assoc m.items (x ∷ []) (restored_items executor (suc m.next_id) es)),
      ap (λ (t : TransferManager). t.panes) one ∙ panes,
    )

same_connection_refl : (d : ConnectionDescriptor) → same_connection d d ≡ true
unfolding same_connection
same_connection_refl d = ground (
  arith,
  protocol_eq_refl d.protocol,
  text_eq_refl d.host,
  text_eq_refl d.username,
  ==_refl d.port,
)

-- A saved item that was restored is reclaimed by the pane that its server is connected to.
reclaim_one-restored :
    (executor p : ℕ) (d : ConnectionDescriptor) (s : TransferManager) (id : ℕ) (item : TransferItem)
    → ((item.direction ≡ TransferDirection.local_to_remote) × (connection_of s item.dest_pane ≡ d))
      ⊎ ((item.direction ≡ TransferDirection.remote_to_local)
          × (connection_of s item.source_pane ≡ d))
    → reclaim_one p d
        (item_or (new_item id) (restored_item id executor item.direction (persisted_item s item)))
      ≡ some (continued executor p d id item.direction item)
unfolding reclaim_one reclaimed_item restored_item persisted_item new_item
reclaim_one-restored executor p d s id item (inl (way, there)) =
    rw (way, there, same_connection_refl d) refl
reclaim_one-restored executor p d s id item (inr (way, there)) =
    rw (way, there, same_connection_refl d) refl

reclaimed_first :
    (executor p : ℕ) (d : ConnectionDescriptor) (id : ℕ) (e : PersistedTransferItem)
    (es : List PersistedTransferItem) (y : TransferItem)
    → reclaim_one p d (item_or (new_item id) (restored_item id executor e.direction e)) ≡ some y
    → (reclaim_items p d (restored_items executor id (e ∷ es))
        ≡ y ∷ reclaim_items p d (restored_items executor (suc id) es))
      × (reclaimed p d (restored_items executor id (e ∷ es))
          ≡ y ∷ reclaimed p d (restored_items executor (suc id) es))
unfolding reclaim_items reclaimed restored_items
reclaimed_first executor p d id e es y h = (rw h refl, rw (h, reclaimed) refl)

pub restored-continued :
    (executor p : ℕ) (d : ConnectionDescriptor) (s : TransferManager) (id : ℕ)
    (items : List TransferItem)
    → All (IsFor d s) items
    → (reclaim_items p d (restored_items executor id (persisted_items s items))
        ≡ continued_items s executor p d id items)
      × (reclaimed p d (restored_items executor id (persisted_items s items))
          ≡ continued_items s executor p d id items)
unfolding persisted_items continued_items persisted_item
restored-continued executor p d s id [] h =
    unfold reclaim_items in unfold reclaimed in unfold restored_items in (refl, refl)
restored-continued executor p d s id (item ∷ items) (inl left_out, hs) =
    rw left_out (restored-continued executor p d s id items hs)
restored-continued executor p d s id (item ∷ items) (inr to, hs) =
    elim (Bool-cases (is_saved s item)) [
      | inr left_out ↦ rw left_out (restored-continued executor p d s id items hs)
      | inl is ↦
          let (items_same, reclaimed_same) = restored-continued executor p d s (suc id) items hs in
          let (first, found) =
            reclaimed_first executor p d id (persisted_item s item) (persisted_items s items)
              (continued executor p d id item.direction item)
              (reclaim_one-restored executor p d s id item to) in
          rw is (
            first ∙ ap (◌∷◌ (continued executor p d id item.direction item)) items_same,
            found ∙ ap (◌∷◌ (continued executor p d id item.direction item)) reclaimed_same,
          )
    ]

pub persisted_items-IsRemoteEntry :
    (d : ConnectionDescriptor) (s : TransferManager) (items : List TransferItem)
    → All (IsFor d s) items
    → All IsRemoteEntry (persisted_items s items)
unfolding persisted_items persisted_item
persisted_items-IsRemoteEntry d s [] h = tt
persisted_items-IsRemoteEntry d s (item ∷ items) (inl left_out, hs) =
    rw left_out (persisted_items-IsRemoteEntry d s items hs)
persisted_items-IsRemoteEntry d s (item ∷ items) (inr to, hs) =
    if-elim (All IsRemoteEntry) (is_saved s item) _ _
      (λ _. (remote to, persisted_items-IsRemoteEntry d s items hs))
      (λ _. persisted_items-IsRemoteEntry d s items hs)
  where
    remote :
        ((item.direction ≡ TransferDirection.local_to_remote)
            × (connection_of s item.dest_pane ≡ d))
          ⊎ ((item.direction ≡ TransferDirection.remote_to_local)
              × (connection_of s item.source_pane ≡ d))
        → IsRemoteEntry (persisted_item s item)
    remote (inl (way, there)) = inl way
    remote (inr (way, there)) = inr way
