-- ===== src/Queue/Claims/Scanning.antt =====
-- startNext keeps the invariant.
use zephyrftp.Base.{
  ℕ, zero, suc, ◌-◌, ◌≡◌, refl, sym, subst, true, false, List, [], ◌∷◌, ◌++◌, Option, none, some,
  inl, inr, arith, Option-cases, option-elim, if-elim, get_elem?, All-get, length,
  get_elem?-set_self, get_elem?-append_last, set-set, set_same,
}
use zephyrftp.Base.Text.{Text, is_empty}
use zephyrftp.Backends.Identity.{Backend, connection_identity}
use zephyrftp.Queue.Item.{TransferItem, TransferStatus, is_queued, is_move}
use zephyrftp.Queue.Panes.{Pane}
use zephyrftp.Queue.State.{TransferManager, ActiveTransfer, put}
use zephyrftp.Queue.Lookup.{
  primary_of, reservation_key_at, reservation_key, required_backends_for_dispatch,
  active_index_for_item,
}
use zephyrftp.Queue.Dispatch.{
  bind_backend, must_wait, claim, send_check, commit, admit, visit, scan, advance_floor,
  reset_resolutions, start_next_fuel, start_next,
}
use zephyrftp.Queue.Execute.{started_item, dispatch_active_item}
use zephyrftp.Queue.Claims.Lists.{covers, covers_self, has_item}
use zephyrftp.Queue.Claims.Keys.{active_index_found, active_index_none}
use zephyrftp.Queue.Claims.Invariant.{needs, Inv, Owned-item}
use zephyrftp.Queue.Claims.Entries.{Inv-claim}
use zephyrftp.Queue.Claims.Dispatching.{
  InvOf, Safe, StagedIn, SoundIn, HoldsIn, required-needs, started_item-Sound,
  started_item-direction, started_item-Holds, dispatch_entry-Safe, dispatch_active_item_lem,
}
use zephyrftp.Queue.Claims.Crash.{scan-KeepsCrash, start_next_fuel-KeepsCrash, KeepsCrash}
use zephyrftp.Queue.Claims.Binding.{QueuedAt, bind_backend-QueuedAt}

-- An item that waits for nothing is in no entry.
has_item_of_wait :
    (s : TransferManager) (i : ℕ) (item : TransferItem)
    → InvOf s
    → get_elem? s.items i ≡ some item
    → item.status ≡ TransferStatus.queued
    → must_wait s item ≡ false
    → has_item i s.active ≡ false
unfolding must_wait
has_item_of_wait s i item v e st w = elim (Option-cases (active_index_for_item s.active i)) [
  | inl n ↦ active_index_none s.active i n
  | inr (k, f) ↦
      let (a, at, q) = active_index_found s.active i k f in
      let h = Owned-item _ _ s.items a i item (All-get _ s.active k a v.owned at) q e in
      let (same, full) = h.keyed (rw st) in
      absurd (ground (arith, All-get _ s.active k a v.held at, same, full))
]

-- The entry that startNext makes for an item.
abbrev new_entry : TransferManager → ℕ → TransferItem → ActiveTransfer
new_entry s i item = record {
  item_index = i;
  claimed_backends = required_backends_for_dispatch s item;
  current_executor = none;
  cancelled = false;
  reserved_destination_key = reservation_key s item;
}

reservation_key_some :
    (panes : ℕ → Pane) (backends : ℕ → Backend) (p : ℕ) (path : Text)
    → is_empty (reservation_key_at panes backends (some p) path) ≡ false
unfolding reservation_key_at
reservation_key_some panes backends p path =
    nonempty (connection_identity (backends (panes p).backend))
  where
    nonempty : (t : Text) → is_empty (t ++ (b'\n' ∷ path)) ≡ false
    nonempty [] = refl
    nonempty (c ∷ t) = refl

-- A claim keeps the invariant, for what the item becomes with it.
claim-Inv :
    (i : ℕ) (item item' : TransferItem) (s : TransferManager)
    → InvOf s
    → get_elem? s.items i ≡ some item
    → item.status ≡ TransferStatus.queued
    → must_wait s item ≡ false
    → SoundIn s item'
    → item'.direction ≡ item.direction
    → HoldsIn s item' (new_entry s i item)
    → InvOf (put i item' (claim i item s))
unfolding claim must_wait
claim-Inv i item item' s v e st w g d h =
    Inv-claim _ _ _ _ _ i item item' (new_entry s i item) v e refl
      (has_item_of_wait s i item v e st w) (ground arith) (ground arith) g d h

claimed-covered :
    (s : TransferManager) (i : ℕ) (item : TransferItem)
    → covers
        (new_entry s i item).claimed_backends
        (needs (primary_of s.panes) (reservation_key_at s.panes s.backends) item)
      ≡ true
claimed-covered s i item =
    subst (λ rs. covers (required_backends_for_dispatch s item) rs ≡ true) (required-needs s item)
      (covers_self (required_backends_for_dispatch s item))

-- An item that waits for its conflict check, held by its new entry.
checked-Holds :
    (s : TransferManager) (i p : ℕ) (item : TransferItem)
    → item.status ≡ TransferStatus.queued
    → item.dest_pane ≡ some p
    → is_move item.direction ≡ false
    → HoldsIn s item (new_entry s i item)
checked-Holds s i p item st d m = record {
  unmoved = m;
  live = rw st;
  covered = claimed-covered s i item;
  executing = refl;
  captured = λ h. absurd (ground arith);
  keyed = λ h. (refl, rw d (reservation_key_some s.panes s.backends p item.dest_path));
}

unmoved_of_queued :
    (s : TransferManager) (item : TransferItem)
    → SoundIn s item
    → item.status ≡ TransferStatus.queued
    → is_move item.direction ≡ false
unmoved_of_queued s item g st = ground (arith, g.1)

-- The check goes out for an item that was claimed.
send_check-Safe :
    (i : ℕ) (item : TransferItem) (p : Option ℕ) (s : TransferManager)
    → InvOf s
    → get_elem? s.items i ≡ some item
    → item.status ≡ TransferStatus.queued
    → must_wait s item ≡ false
    → item.dest_pane ≡ p
    → Safe (send_check i item p (claim i item s))
unfolding send_check claim
send_check-Safe i item none s v e st w d = inl refl
send_check-Safe i item (some p) s v e st w d = inr (
    subst
      (λ xs.
        Inv (primary_of s.panes) (reservation_key_at s.panes s.backends) s.pending_move_item_id
          s.index_by_id s.next_id xs (claim i item s).active
          (claim i item s).reserved_destination_keys)
      (set_same s.items i item e)
      (claim-Inv i item item s v e st w (All-get _ s.items i item v.sound e) refl (
        checked-Holds s i p item st d
          (unmoved_of_queued s item (All-get _ s.items i item v.sound e) st))))

active_index_last :
    (as' : List ActiveTransfer) (a : ActiveTransfer)
    → has_item a.item_index as' ≡ false
    → active_index_for_item (as' ++ a ∷ []) a.item_index ≡ some (length as')
unfolding active_index_for_item has_item
active_index_last [] a h = ground arith
active_index_last (x ∷ as') a h = ground (arith, active_index_last as' a)

-- The flag that skips the check does not count for what an item needs.
required_unskipped :
    (i : ℕ) (item : TransferItem) (s : TransferManager)
    → required_backends_for_dispatch
        (put i (record item { skip_conflict_check_on_dispatch = false }) (claim i item s))
        (record item { skip_conflict_check_on_dispatch = false })
      ≡ required_backends_for_dispatch s item
unfolding claim required_backends_for_dispatch
required_unskipped i item s = ground arith

queued_of_test : (st : TransferStatus) → is_queued st ≡ true → st ≡ TransferStatus.queued
queued_of_test TransferStatus.queued h = refl
queued_of_test _ h = absurd (ground arith)

module _ (again : TransferManager → TransferManager)
    (keep : (s : TransferManager) → InvOf s → Safe (again s)) where
  -- An item that needs no check is dispatched with its new entry.
  skip_check-Safe :
      (i : ℕ) (item : TransferItem) (s : TransferManager)
      → InvOf s
      → get_elem? s.items i ≡ some item
      → item.status ≡ TransferStatus.queued
      → must_wait s item ≡ false
      → Safe (
          dispatch_active_item again i
            (put i (record item { skip_conflict_check_on_dispatch = false }) (claim i item s)))
  unfolding claim
  skip_check-Safe i item s v e st w =
      let item' : TransferItem = record item { skip_conflict_check_on_dispatch = false } in
      let s' : TransferManager = put i item' (claim i item s) in
      let sound : SoundIn s item = All-get _ s.items i item v.sound e in
      let g : StagedIn s item' = sound.0 in
      let started : TransferItem = started_item s' item' in
      let at : get_elem? s'.items i ≡ some item' = get_elem?-set_self s.items i item item' e in
      let k : active_index_for_item s'.active i ≡ some (length s.active) =
        active_index_last s.active (new_entry s i item) (has_item_of_wait s i item v e st w) in
      let entry : get_elem? s'.active (length s.active) ≡ some (new_entry s i item) =
        get_elem?-append_last s.active (new_entry s i item) in
      subst Safe
        (sym (
          dispatch_active_item_lem again i (length s.active) (new_entry s i item) item' s' at k
            entry))
        (dispatch_entry-Safe again keep i (length s.active) (new_entry s i item) item' s' at entry
          refl
          (subst
            (λ xs.
              Inv (primary_of s.panes) (reservation_key_at s.panes s.backends)
                s.pending_move_item_id s.index_by_id s.next_id xs s'.active
                s'.reserved_destination_keys)
            (sym (set-set s.items i item' started))
            (claim-Inv i item started s v e st w (started_item-Sound s' item' g)
              (started_item-direction s' item')
              (started_item-Holds s' item' (new_entry s i item) g
                (unmoved_of_queued s item sound st)
                (rw (required_unskipped i item s)
                  (covers_self (required_backends_for_dispatch s item)))))))

  commit-Safe :
      (i : ℕ) (item : TransferItem) (s : TransferManager)
      → InvOf s
      → get_elem? s.items i ≡ some item
      → item.status ≡ TransferStatus.queued
      → must_wait s item ≡ false
      → Safe (commit again i item s)
  unfolding commit
  commit-Safe i item s v e st w =
      if-elim Safe item.skip_conflict_check_on_dispatch _ _ (λ _. skip_check-Safe i item s v e st w)
        (λ _. send_check-Safe i item item.dest_pane s v e st w refl)

  admit-Safe : (i : ℕ) (s : TransferManager) → QueuedAt i s → Safe (admit again i s)
  unfolding admit
  admit-Safe i s (v, (item, e, st)) =
      rw (e, admit)
        (if-elim Safe (must_wait s item) _ _ (λ _. inr v) (λ w. commit-Safe i item s v e st w))

  pub visit-Safe : (i : ℕ) (s : TransferManager) → InvOf s → Safe (visit again i s)
  unfolding visit
  visit-Safe i s v =
      option-elim Safe (get_elem? s.items i) _ _ (λ _. inr v)
        (λ item e.
          if-elim Safe (is_queued item.status) _ _
            (λ h.
              admit-Safe i (bind_backend i item s)
                (bind_backend-QueuedAt i item s v e (queued_of_test item.status h)))
            (λ _. inr v))

  scan-Safe : KeepsCrash again → (n i : ℕ) (s : TransferManager) → InvOf s → Safe (scan again n i s)
  unfolding scan
  scan-Safe stays zero i s v = inr v
  scan-Safe stays (suc n) i s v = elim (visit-Safe i s v) [
    | inl c ↦ inl (scan-KeepsCrash again stays n (suc i) (visit again i s) c)
    | inr v' ↦ scan-Safe stays n (suc i) (visit again i s) v'
  ]

-- The end of a scan touches neither items nor entries.
settled-Safe : (s : TransferManager) → Safe s → Safe (reset_resolutions (advance_floor s))
unfolding reset_resolutions advance_floor
settled-Safe s (inl c) = inl (ground arith)
settled-Safe s (inr v) = if-elim Safe _ _ _ (λ _. inr v) (λ _. inr v)

start_next_fuel-Safe : (fuel : ℕ) (s : TransferManager) → InvOf s → Safe (start_next_fuel fuel s)
unfolding start_next_fuel
start_next_fuel-Safe zero s v = inr v
start_next_fuel-Safe (suc fuel) s v =
    settled-Safe (scan (start_next_fuel fuel) (length s.items - s.scan_floor) s.scan_floor s) (
      scan-Safe (start_next_fuel fuel) (start_next_fuel-Safe fuel) (start_next_fuel-KeepsCrash fuel)
        (length s.items - s.scan_floor) s.scan_floor s v)

pub start_next-Safe : (s : TransferManager) → InvOf s → Safe (start_next s)
unfolding start_next
start_next-Safe s v = start_next_fuel-Safe (suc (length s.items)) s v
