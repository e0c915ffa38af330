-- ===== src/Queue/Restart.antt =====
-- What the queue keeps over a restart of the program: transfer/TransferQueueStore.cpp between
-- saveQueueForShutdown and restorePersistedQueue of transfer/TransferManager.cpp.
use zephyrftp.Base.{
  ℕ, ◌<◌, ◌≡◌, refl, sym, ap, ◌∙◌, subst, true, false, List, [], ◌∷◌, map, some, ◌⊎◌, inl, inr,
  arith, All, All-get, All-append, Option-cases, get_elem?, zero, suc, length, ◌-◌,
}
use zephyrftp.Base.Text.{Text, text_eq, is_empty}
use zephyrftp.Json.{value, to_text, to_number, to_object, to_list-of_list}
use zephyrftp.Backends.Protocol.{
  ConnectionDescriptor, no_connection, is_unconnected, protocol_from_key, protocol_from_key-to_key,
}
use zephyrftp.Queue.Item.{TransferItem, TransferDirection, is_pending_reconnect}
use zephyrftp.Queue.State.{TransferManager, new_manager}
use zephyrftp.Queue.Panes.{Pane}
use zephyrftp.Backends.Identity.{Backend}
use zephyrftp.Queue.Dispatch.{
  visit, scan, advance_floor, reset_resolutions, start_next_fuel, start_next,
}
use zephyrftp.Queue.Enqueue.{append_item}
use zephyrftp.Queue.Store.{
  PersistedTransferItem, direction_to_key, direction_from_key, connection_to_json,
  connection_from_json, item_to_json, item_from_json, keep_item, load_values, load, save,
}
use zephyrftp.Queue.Persist.{
  is_persisted_direction, is_persisted_status, persisted_items, save_queue_for_shutdown,
  restored_item, restore_one, restore_all, restore_persisted_queue,
}

-- What a double represents exactly.
abbrev pub IsExact : ℕ → Type 0
IsExact n = n < 9007199254740992

-- A descriptor of a pane: of no connection, or with a host.
abbrev pub IsDescribed : ConnectionDescriptor → Type 0
IsDescribed d = (d ≡ no_connection) ⊎ (is_unconnected d ≡ false)

-- What the store can keep of an entry.
pub record IsStorable (e : PersistedTransferItem) : Type 0 where
  pub persisted : is_persisted_direction e.direction ≡ true
  pub has_source : is_empty e.source_path ≡ false
  pub has_dest : is_empty e.dest_path ≡ false
  pub exact_done : e.bytes_done < 9007199254740992
  pub exact_total : e.bytes_total < 9007199254740992
  pub source_described : IsDescribed e.source_connection
  pub dest_described : IsDescribed e.dest_connection

connection_round_trip :
    (d : ConnectionDescriptor) → IsDescribed d → connection_from_json (connection_to_json d) ≡ d
unfolding connection_from_json connection_to_json value text_eq to_text to_number is_unconnected
    protocol_from_key
connection_round_trip d (inl e) = rw e refl
connection_round_trip d (inr h) = ground (arith, protocol_from_key-to_key d.protocol)

direction_round_trip :
    (d : TransferDirection)
    → is_persisted_direction d ≡ true
    → direction_from_key (direction_to_key d) ≡ d
unfolding direction_from_key direction_to_key is_persisted_direction text_eq
direction_round_trip d h = ground arith

module _ (double : ℕ → ℕ) (exact : (n : ℕ) → n < 9007199254740992 → double n ≡ n) where
  item_round_trip :
      (e : PersistedTransferItem)
      → IsStorable e
      → item_from_json double (to_object (item_to_json e)) ≡ e
  unfolding item_from_json item_to_json to_object value text_eq to_text to_number
  item_round_trip e h = cc (
    direction_round_trip e.direction h.persisted,
    exact e.bytes_done h.exact_done,
    exact e.bytes_total h.exact_total,
    connection_round_trip e.source_connection h.source_described,
    connection_round_trip e.dest_connection h.dest_described,
  )

  values_round_trip :
      (es : List PersistedTransferItem)
      → All IsStorable es
      → load_values double (map item_to_json es) ≡ es
  unfolding load_values keep_item item_to_json to_object
  values_round_trip [] h = refl
  values_round_trip (e ∷ es) (h, hs) =
      ground (arith, values_round_trip es hs, h.has_source, h.has_dest, item_round_trip e h)

  -- The store reads back what it wrote, entry by entry and in order: for entries of a persisted
  -- direction with both paths, with connections that are absent or have a host, and with byte
  -- counts that a double represents exactly (`double` is what Qt reads for a number that was
  -- written, exact below 2^53).
  pub load-save :
      (es : List PersistedTransferItem) → All IsStorable es → load double (some (save es)) ≡ es
  unfolding load save
  load-save es h =
      ap (load_values double) (to_list-of_list (map item_to_json es)) ∙ values_round_trip es h

abbrev pub IsPending : TransferItem → Type 0
IsPending item = is_pending_reconnect item.status ≡ true

visit_pending :
    (again : TransferManager → TransferManager) (i : ℕ) (s : TransferManager)
    → All IsPending s.items
    → visit again i s ≡ s
unfolding visit
visit_pending again i s h = elim (Option-cases (get_elem? s.items i)) [
  | inl n ↦ rw (n, visit) refl
  | inr (item, e) ↦ rw (e, visit) (ground (arith, All-get _ s.items i item h e))
]

scan_pending :
    (again : TransferManager → TransferManager) (n i : ℕ) (s : TransferManager)
    → All IsPending s.items
    → scan again n i s ≡ s
unfolding scan
scan_pending again zero i s h = refl
scan_pending again (suc n) i s h =
    ap (scan again n (suc i)) (visit_pending again i s h) ∙ scan_pending again n (suc i) s h

-- A scan of a queue in which every item waits for its server changes no item, and no pane.
pub start_next_pending :
    (s : TransferManager)
    → All IsPending s.items
    → ((start_next s).items ≡ s.items) × ((start_next s).panes ≡ s.panes)
unfolding start_next start_next_fuel advance_floor reset_resolutions
start_next_pending s h =
    let again = start_next_fuel (length s.items) in
    let e = scan_pending again (length s.items - s.scan_floor) s.scan_floor s h in
    (
      ground (arith, ap (λ (t : TransferManager). t.items) e),
      ground (arith, ap (λ (t : TransferManager). t.panes) e),
    )

-- entries of transfers to or from a server
abbrev pub IsRemoteEntry : PersistedTransferItem → Type 0
IsRemoteEntry e =
    (e.direction ≡ TransferDirection.local_to_remote)
    ⊎ (e.direction ≡ TransferDirection.remote_to_local)

pub restore_all-IsPending :
    (executor : ℕ) (es : List PersistedTransferItem) (s : TransferManager)
    → All IsRemoteEntry es
    → All IsPending s.items
    → All IsPending (restore_all executor es s).items
unfolding restore_all restore_one restored_item append_item
restore_all-IsPending executor [] s r h = h
restore_all-IsPending executor (e ∷ es) s (inl d, rs) h =
    restore_all-IsPending executor es (restore_one executor e s) rs
      (rw d (All-append IsPending s.items _ h (refl, tt)))
restore_all-IsPending executor (e ∷ es) s (inr d, rs) h =
    restore_all-IsPending executor es (restore_one executor e s) rs
      (rw d (All-append IsPending s.items _ h (refl, tt)))

persisted_items_pending :
    (s : TransferManager) (items : List TransferItem)
    → All IsPending items
    → persisted_items s items ≡ []
unfolding persisted_items is_persisted_direction is_persisted_status
persisted_items_pending s [] h = refl
persisted_items_pending s (item ∷ items) h =
    ground (arith, persisted_items_pending s items h.1, h.0)

-- A queue of transfers to and from servers that was restored by a fresh program, and that no pane
-- has reconnected since, is saved as an empty queue: whatever was restored is lost with the next
-- shutdown.
pub save_queue_for_shutdown-restore_persisted_queue :
    (panes : ℕ → Pane) (backends : ℕ → Backend) (staging : Text) (executor : ℕ)
    (es : List PersistedTransferItem)
    → All IsRemoteEntry es
    → save_queue_for_shutdown
        (restore_persisted_queue executor es (new_manager panes backends staging))
      ≡ []
unfolding save_queue_for_shutdown restore_persisted_queue new_manager
save_queue_for_shutdown-restore_persisted_queue panes backends staging executor [] h =
    unfold persisted_items in refl
save_queue_for_shutdown-restore_persisted_queue panes backends staging executor (e ∷ es) h =
    let restored = restore_all executor (e ∷ es) (new_manager panes backends staging) in
    let pending =
      restore_all-IsPending executor (e ∷ es) (new_manager panes backends staging) h tt in
    persisted_items_pending (start_next restored) (start_next restored).items
      (subst (All IsPending) (sym (start_next_pending restored pending).0) pending)
