-- ===== src/Queue/Fuel.antt =====
-- startNext of transfer/TransferManager.cpp calls itself through dispatchActiveItem, each time with
-- one Queued item fewer.
pub mod Enough
use zephyrftp.Base.{
  ℕ, zero, suc, ◌+◌, ◌-◌, ◌≤◌, ◌<◌, ◌≡◌, refl, sym, ap, ◌∙◌, subst, Bool, true, false, ◌||◌, ◌&&◌,
  List, [], ◌∷◌, Option, none, some, ◌⊎◌, inl, inr, arith, Bool-cases, Option-cases, if-elim,
  if◌then◌else◌, get_elem?, set, length, set-set, get_elem?-set_self,
}
use zephyrftp.Queue.Item.{TransferItem, TransferStatus, is_queued, is_remote_to_remote}
use zephyrftp.Queue.State.{TransferManager, ActiveTransfer, put}
use zephyrftp.Queue.Panes.{Pane, pick_idle_transfer_backend}
use zephyrftp.Queue.Lookup.{
  active_index_for_item, release_active_transfer, cleaned_item, is_claimed, pool_pane_for_item,
}
use zephyrftp.Queue.Dispatch.{
  bind_picked, bind_from_pool, bind_backend, claim, send_check, commit, must_wait, admit, visit,
  scan, advance_floor, reset_resolutions, start_next_fuel, start_next,
}
use zephyrftp.Queue.Execute.{
  prepared, started_item, failed_dispatch_item, fail_dispatch, run_on, execute, start_item,
  executor_of, dispatch_entry, dispatch_active_item,
}

abbrev one_if : Bool → ℕ
one_if b = if b then 1 else 0

-- the number of Queued items
unfoldable pub count_queued : List TransferItem → ℕ
count_queued [] = 0
count_queued (item ∷ items) = one_if (is_queued item.status) + count_queued items

count_queued-set :
    (items : List TransferItem) (i : ℕ) (item item' : TransferItem)
    → get_elem? items i ≡ some item
    → count_queued (set items i item') + one_if (is_queued item.status)
      ≡ count_queued items + one_if (is_queued item'.status)
unfolding count_queued
count_queued-set [] i item item' e = absurd (ground arith)
count_queued-set (x ∷ items) zero item item' e = ground arith
count_queued-set (x ∷ items) (suc i) item item' e =
    ground (arith, count_queued-set items i item item' e)

count_queued-bound : (items : List TransferItem) → count_queued items ≤ length items
unfolding count_queued
count_queued-bound [] = omega arith
count_queued-bound (item ∷ items) = ground (arith, count_queued-bound items)

abbrev queued : TransferManager → ℕ
queued s = count_queued s.items

abbrev NeverAdds : (TransferManager → TransferManager) → Type 0
NeverAdds f = (s : TransferManager) → queued (f s) ≤ queued s

-- Two functions agree where fewer than so many items are queued.
abbrev AgreeBelow :
    ℕ → (TransferManager → TransferManager) → (TransferManager → TransferManager) → Type 0
AgreeBelow n f g = (s : TransferManager) → queued s < n → f s ≡ g s

started_item-queued :
    (s : TransferManager) (item : TransferItem) → is_queued (started_item s item).status ≡ false
unfolding started_item
started_item-queued s item = ground arith

failed_dispatch_item-queued :
    (item : TransferItem) → is_queued (failed_dispatch_item item).status ≡ false
unfolding failed_dispatch_item
failed_dispatch_item-queued item = ground arith

fail_dispatch-items :
    (i k : ℕ) (item : TransferItem) (s : TransferManager)
    → (fail_dispatch i k item s).items ≡ set s.items i (failed_dispatch_item item)
unfolding fail_dispatch release_active_transfer
fail_dispatch-items i k item s = ground arith

-- A dispatch that fails has taken its item out of the queue.
queued-failed :
    (i k : ℕ) (item : TransferItem) (s : TransferManager)
    → get_elem? s.items i ≡ some item
    → queued (fail_dispatch i k (started_item s item) (start_item i item s))
        + one_if (is_queued item.status)
      ≡ queued s
unfolding start_item
queued-failed i k item s e =
    let failed = failed_dispatch_item (started_item s item) in
    let same : (fail_dispatch i k (started_item s item) (start_item i item s)).items
        ≡ set s.items i failed =
      fail_dispatch-items i k (started_item s item) (start_item i item s)
      ∙ set-set s.items i (started_item s item) failed in
    ground (
      arith,
      ap count_queued same,
      count_queued-set s.items i item failed e,
      failed_dispatch_item-queued (started_item s item),
    )

queued-start_item :
    (i : ℕ) (item : TransferItem) (s : TransferManager)
    → get_elem? s.items i ≡ some item
    → queued (start_item i item s) ≤ queued s
unfolding start_item
queued-start_item i item s e =
    ground
      (arith, count_queued-set s.items i item (started_item s item) e, started_item-queued s item)

module _ (f : TransferManager → TransferManager) (less : NeverAdds f) where
  execute-queued :
      (i k : ℕ) (a : ActiveTransfer) (item : TransferItem) (executor : Option ℕ)
      (s : TransferManager)
      → get_elem? s.items i ≡ some item
      → queued (execute f i k a (started_item s item) executor (start_item i item s)) ≤ queued s
  unfolding execute run_on
  execute-queued i k a item none s e = omega (
    arith,
    less (fail_dispatch i k (started_item s item) (start_item i item s)),
    queued-failed i k item s e,
  )
  execute-queued i k a item (some b) s e = queued-start_item i item s e

  dispatch-NeverAdds : (i : ℕ) → NeverAdds (dispatch_active_item f i)
  unfolding dispatch_active_item dispatch_entry
  dispatch-NeverAdds i s = elim (Option-cases (get_elem? s.items i)) [
    | inl n ↦ rw (n, dispatch_active_item) (omega arith)
    | inr (item, e) ↦ elim (Option-cases (active_index_for_item s.active i)) [
      | inl n ↦ rw (e, n, dispatch_active_item) (omega arith)
      | inr (k, x) ↦ elim (Option-cases (get_elem? s.active k)) [
        | inl n ↦ rw (e, x, n, dispatch_active_item) (omega arith)
        | inr (a, y) ↦
            rw (e, x, y, dispatch_active_item)
              (execute-queued i k a item (executor_of s (started_item s item)) s e)
      ]
    ]
  ]

-- Binding an item to a backend of the pool leaves it as Queued as it was.
bind_picked-queued :
    (i p : ℕ) (item : TransferItem) (r : Option ℕ × Pane) (s : TransferManager)
    → get_elem? s.items i ≡ some item
    → (queued (bind_picked i p item r s) ≡ queued s)
      × ((it : TransferItem) × (get_elem? (bind_picked i p item r s).items i ≡ some it)
          × (it.status ≡ item.status))
unfolding bind_picked
bind_picked-queued i p item (none, pane) s e = (refl, (item, e, refl))
bind_picked-queued i p item (some b, pane) s e =
    let bound = record item {
      transfer_backend_captured = true;
      captured_transfer_backend = some b;
    } in
    (
      omega (arith, count_queued-set s.items i item bound e),
      (bound, get_elem?-set_self s.items i item bound e, refl),
    )

bind-queued :
    (i : ℕ) (item : TransferItem) (s : TransferManager)
    → get_elem? s.items i ≡ some item
    → (queued (bind_backend i item s) ≡ queued s)
      × ((it : TransferItem) × (get_elem? (bind_backend i item s).items i ≡ some it)
          × (it.status ≡ item.status))
unfolding bind_backend bind_from_pool
bind-queued i item s e =
    if-elim
      (λ (t : TransferManager).
        (queued t ≡ queued s)
        × ((it : TransferItem) × (get_elem? t.items i ≡ some it) × (it.status ≡ item.status)))
      _ _ _ (λ _. from_pool (pool_pane_for_item item)) (λ _. (refl, (item, e, refl)))
  where
    from_pool :
        (p : Option ℕ)
        → (queued (bind_from_pool i item p s) ≡ queued s)
          × ((it : TransferItem) × (get_elem? (bind_from_pool i item p s).items i ≡ some it)
              × (it.status ≡ item.status))
    from_pool none = (refl, (item, e, refl))
    from_pool (some p) =
        bind_picked-queued i p item (pick_idle_transfer_backend (is_claimed s.active) (s.panes p)) s
          e

-- the state in which commit dispatches an item that no check holds up
abbrev unchecked : ℕ → TransferItem → TransferManager → TransferManager
unchecked i item s =
    put i (record item { skip_conflict_check_on_dispatch = false }) (claim i item s)

unchecked-queued :
    (i : ℕ) (item : TransferItem) (s : TransferManager)
    → get_elem? s.items i ≡ some item
    → queued (unchecked i item s) ≡ queued s
unfolding claim
unchecked-queued i item s e = omega (
  arith,
  count_queued-set s.items i item (record item { skip_conflict_check_on_dispatch = false }) e,
)

send_check-items :
    (i : ℕ) (item : TransferItem) (p : Option ℕ) (s : TransferManager)
    → (send_check i item p (claim i item s)).items ≡ s.items
unfolding send_check claim
send_check-items i item none s = refl
send_check-items i item (some p) s = refl

module _ (f : TransferManager → TransferManager) (less : NeverAdds f) where
  commit-queued :
      (i : ℕ) (item : TransferItem) (s : TransferManager)
      → get_elem? s.items i ≡ some item
      → queued (commit f i item s) ≤ queued s
  unfolding commit
  commit-queued i item s e =
      if-elim (λ (t : TransferManager). queued t ≤ queued s) item.skip_conflict_check_on_dispatch _
        _
        (λ _.
          omega
            (arith, dispatch-NeverAdds f less i (unchecked i item s), unchecked-queued i item s e))
        (λ _. omega (arith, ap count_queued (send_check-items i item item.dest_pane s)))

  admit-NeverAdds : (i : ℕ) → NeverAdds (admit f i)
  unfolding admit
  admit-NeverAdds i s = elim (Option-cases (get_elem? s.items i)) [
    | inl n ↦ rw (n, admit) (omega arith)
    | inr (item, e) ↦
        rw (e, admit)
          (if-elim (λ (t : TransferManager). queued t ≤ queued s) (must_wait s item) _ _
            (λ _. omega arith) (λ _. commit-queued i item s e))
  ]

  visit-NeverAdds : (i : ℕ) → NeverAdds (visit f i)
  unfolding visit
  visit-NeverAdds i s = elim (Option-cases (get_elem? s.items i)) [
    | inl n ↦ rw (n, visit) (omega arith)
    | inr (item, e) ↦
        rw (e, visit)
          (if-elim (λ (t : TransferManager). queued t ≤ queued s) (is_queued item.status) _ _
            (λ _.
              omega (arith, admit-NeverAdds i (bind_backend i item s), (bind-queued i item s e).0))
            (λ _. omega arith))
  ]

  scan-NeverAdds : (k i : ℕ) → NeverAdds (scan f k i)
  unfolding scan
  scan-NeverAdds zero i s = omega arith
  scan-NeverAdds (suc k) i s =
      omega (arith, scan-NeverAdds k (suc i) (visit f i s), visit-NeverAdds i s)

tail-items : (s : TransferManager) → (reset_resolutions (advance_floor s)).items ≡ s.items
unfolding reset_resolutions advance_floor
tail-items s = ground arith

start_next_fuel-NeverAdds : (fuel : ℕ) → NeverAdds (start_next_fuel fuel)
unfolding start_next_fuel
start_next_fuel-NeverAdds zero s = omega arith
start_next_fuel-NeverAdds (suc fuel) s = omega (
  arith,
  scan-NeverAdds (start_next_fuel fuel) (start_next_fuel-NeverAdds fuel)
      (length s.items - s.scan_floor) s.scan_floor s,
  ap count_queued
      (tail-items (scan (start_next_fuel fuel) (length s.items - s.scan_floor) s.scan_floor s)),
)
