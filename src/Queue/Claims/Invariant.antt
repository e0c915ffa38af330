-- ===== src/Queue/Claims/Invariant.antt =====
-- The invariant over the items, the entries and the reservations, and how it survives the few ways
-- in which the operations change them.
use zephyrftp.Base.{
  ℕ, suc, ◌≡◌, ap, subst, ◌∙◌, Bool, true, false, ◌||◌, ◌&&◌, List, [], ◌∷◌, ◌++◌, Option, some,
  ◌⊎◌, inl, inr, arith, ◌==◌, ==_iff, Bool-cases, get_elem?, set, All, All-append, All-set, length,
  get_elem?-set_self, get_elem?-set_ne, get_elem?-append_old,
}
use zephyrftp.Base.Text.{Text, is_empty}
use zephyrftp.Queue.Item.{
  TransferItem, TransferStatus, is_queued, is_paused, is_pending_reconnect, is_in_progress, is_move,
  is_remote_to_remote, is_downloading,
}
use zephyrftp.Base.Maps.{insert}
use zephyrftp.Queue.State.{ActiveTransfer}
use zephyrftp.Queue.Claims.Moves.{Moving, Moving-set, Moving-append}
use zephyrftp.Queue.Lookup.{required_by, has_key}
use zephyrftp.Queue.Dispatch.{is_none}
use zephyrftp.Queue.Claims.Lists.{covers, Exclusive, has_item, DistinctItems, DistinctKeys}

-- Queued or InProgress
abbrev pub is_live : TransferStatus → Bool
is_live st = is_queued st || is_in_progress st

-- Queued, Paused or PendingReconnect
abbrev pub is_waiting : TransferStatus → Bool
is_waiting st = is_queued st || (is_paused st || is_pending_reconnect st)

-- whether the key of an entry is empty or among the reservations
abbrev pub is_reserved : List Text → Text → Bool
is_reserved res key = is_empty key || has_key key res

module _ (primary : Option ℕ → Option ℕ) (key_of : Option ℕ → Text → Text) where
  -- requiredBackendsForDispatch over given primaries
  abbrev pub needs : TransferItem → List (Option ℕ)
  needs item = required_by item.direction item (primary item.source_pane) (primary item.dest_pane)

  -- A staged transfer has captured its destination's backend, except before its first dispatch.
  abbrev pub Captured : TransferItem → Type 0
  Captured item =
      is_remote_to_remote item.direction ≡ true
      → item.captured_dest_backend ≡ primary item.dest_pane

  abbrev pub Staged : TransferItem → Type 0
  Staged item =
      is_remote_to_remote item.direction ≡ true
      → ((is_downloading item.phase ≡ true) × (is_empty item.temp_file_path ≡ true))
        ⊎ (item.captured_dest_backend ≡ primary item.dest_pane)

  -- A move never waits to be started.
  abbrev pub Sound : TransferItem → Type 0
  Sound item = Staged item × ((is_move item.direction && is_waiting item.status) ≡ false)

  -- What an entry and its item have to do with one another.
  pub record Holds (item : TransferItem) (a : ActiveTransfer) : Type 0 where
    pub live : is_live item.status ≡ true
    pub covered : covers a.claimed_backends (needs item) ≡ true
    pub unmoved : is_move item.direction ≡ false
    pub executing : (is_none a.current_executor || is_in_progress item.status) ≡ true
    pub captured : is_in_progress item.status ≡ true → Captured item
    pub keyed :
        is_queued item.status ≡ true
        → (a.reserved_destination_key ≡ key_of item.dest_pane item.dest_path)
          × (is_empty a.reserved_destination_key ≡ false)

  abbrev pub Owned : List TransferItem → ActiveTransfer → Type 0
  Owned items a = (item : TransferItem) × (get_elem? items a.item_index ≡ some item) × Holds item a

  -- The item of an entry is the one at its index.
  pub Owned-item :
      (items : List TransferItem) (a : ActiveTransfer) (i : ℕ) (item : TransferItem)
      → Owned items a
      → a.item_index ≡ i
      → get_elem? items i ≡ some item
      → Holds item a
  Owned-item items a i item o q e =
      let p : o.0 ≡ item = ground (arith, ap (λ (j : ℕ). get_elem? items j) q) in
      subst (λ it. Holds it a) p o.2

  -- An item changes, and what its entry says of it stays true.
  Owned-set_one :
      (items : List TransferItem) (a : ActiveTransfer) (i : ℕ) (item item' : TransferItem)
      → get_elem? items i ≡ some item
      → Owned items a
      → ((q : a.item_index ≡ i) → Holds item a → Holds item' a)
      → Owned (set items i item') a
  Owned-set_one items a i item item' e o f = elim (Bool-cases (a.item_index == i)) [
    | inl same ↦
        let q : a.item_index ≡ i = (==_iff a.item_index i).0 same in
        (
          item',
          rw q (get_elem?-set_self items i item item' e),
          f q (Owned-item items a i item o q e),
        )
    | inr other ↦ (o.0, get_elem?-set_ne items i a.item_index item' (ground arith) ∙ o.1, o.2)
  ]

  pub Owned-set :
      (items : List TransferItem) (act : List ActiveTransfer) (i : ℕ) (item item' : TransferItem)
      → get_elem? items i ≡ some item
      → All (Owned items) act
      → ((a : ActiveTransfer) → a.item_index ≡ i → Holds item a → Holds item' a)
      → All (Owned (set items i item')) act
  Owned-set items [] i item item' e h f = tt
  Owned-set items (a ∷ act) i item item' e h f =
      (Owned-set_one items a i item item' e h.0 (f a), Owned-set items act i item item' e h.1 f)

  -- An item that is in no entry changes at will.
  pub Owned-set_absent :
      (items : List TransferItem) (act : List ActiveTransfer) (i : ℕ) (item item' : TransferItem)
      → get_elem? items i ≡ some item
      → All (Owned items) act
      → has_item i act ≡ false
      → All (Owned (set items i item')) act
  unfolding has_item
  Owned-set_absent items [] i item item' e h f = tt
  Owned-set_absent items (a ∷ act) i item item' e h f = (
    Owned-set_one items a i item item' e h.0 (λ q. absurd (ground arith)),
    Owned-set_absent items act i item item' e h.1 (ground arith),
  )

  -- A new item is in no entry.
  pub Owned-append :
      (items : List TransferItem) (act : List ActiveTransfer) (item : TransferItem)
      → All (Owned items) act
      → All (Owned (items ++ item ∷ [])) act
  Owned-append items [] item h = tt
  Owned-append items (a ∷ act) item h = (
    (h.0.0, get_elem?-append_old items (item ∷ []) a.item_index h.0.0 h.0.1, h.0.2),
    Owned-append items act item h.1,
  )

module _ (primary : Option ℕ → Option ℕ) (key_of : Option ℕ → Text → Text)
    (pending index : List (ℕ × ℕ)) (next : ℕ) where
  pub record Inv (items : List TransferItem) (act : List ActiveTransfer) (res : List Text)
      : Type 0 where
    pub exclusive : Exclusive act
    pub distinct_items : DistinctItems act
    pub distinct_keys : DistinctKeys act
    pub held : All (λ a. is_reserved res a.reserved_destination_key ≡ true) act
    pub owned : All (Owned primary key_of items) act
    pub sound : All (Sound primary key_of) items
    pub moving : All (Moving index next items) pending

  pub Inv-set :
      {items : List TransferItem} {act : List ActiveTransfer} {res : List Text} (i : ℕ)
      (item item' : TransferItem)
      → Inv items act res
      → get_elem? items i ≡ some item
      → Sound primary key_of item'
      → item'.direction ≡ item.direction
      → ((a : ActiveTransfer)
          → a.item_index ≡ i
          → Holds primary key_of item a
          → Holds primary key_of item' a)
      → Inv (set items i item') act res
  Inv-set {items} {act} i item item' v e g d f = record {
    exclusive = v.exclusive;
    distinct_items = v.distinct_items;
    distinct_keys = v.distinct_keys;
    held = v.held;
    owned = Owned-set primary key_of items act i item item' e v.owned f;
    sound = All-set (Sound primary key_of) items i item' v.sound g;
    moving = Moving-set index next items i item item' e d pending v.moving;
  }

  pub Inv-set_absent :
      {items : List TransferItem} {act : List ActiveTransfer} {res : List Text} (i : ℕ)
      (item item' : TransferItem)
      → Inv items act res
      → get_elem? items i ≡ some item
      → has_item i act ≡ false
      → Sound primary key_of item'
      → item'.direction ≡ item.direction
      → Inv (set items i item') act res
  Inv-set_absent {items} {act} i item item' v e free g d = record {
    exclusive = v.exclusive;
    distinct_items = v.distinct_items;
    distinct_keys = v.distinct_keys;
    held = v.held;
    owned = Owned-set_absent primary key_of items act i item item' e v.owned free;
    sound = All-set (Sound primary key_of) items i item' v.sound g;
    moving = Moving-set index next items i item item' e d pending v.moving;
  }

-- An item is appended under the next id.
module _ (primary : Option ℕ → Option ℕ) (key_of : Option ℕ → Text → Text) where
  pub Inv-append :
      {pending index : List (ℕ × ℕ)} {next : ℕ} {items : List TransferItem}
      {act : List ActiveTransfer} {res : List Text} (item : TransferItem)
      → Inv primary key_of pending index next items act res
      → Sound primary key_of item
      → Inv primary key_of pending
          (insert next (length items) index)
          (suc next)
          (items ++ item ∷ [])
          act
          res
  Inv-append {pending} {index} {next} {items} {act} item v g = record {
    exclusive = v.exclusive;
    distinct_items = v.distinct_items;
    distinct_keys = v.distinct_keys;
    held = v.held;
    owned = Owned-append primary key_of items act item v.owned;
    sound = All-append _ items (item ∷ []) v.sound (g, tt);
    moving = Moving-append index next (length items) items item pending v.moving;
  }
