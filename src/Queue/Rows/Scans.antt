-- ===== src/Queue/Rows/Scans.antt =====
-- startNext and dispatchActiveItem, for predicates of the rows.
use zephyrftp.Base.{
  ℕ, zero, suc, ◌-◌, ◌≡◌, refl, true, false, Option, none, some, arith, option-elim, if-elim,
  get_elem?, set, length, get_elem?-set_self,
}
use zephyrftp.Queue.Item.{TransferItem, is_queued}
use zephyrftp.Queue.Panes.{Pane, pick_idle_transfer_backend}
use zephyrftp.Queue.State.{TransferManager, ActiveTransfer, put}
use zephyrftp.Queue.Lookup.{
  active_index_for_item, release_active_transfer, cleaned_item, pool_pane_for_item, is_claimed,
}
use zephyrftp.Queue.Dispatch.{
  bind_picked, bind_from_pool, bind_backend, claim, send_check, commit, must_wait, admit, visit,
  scan, advance_floor, reset_resolutions, start_next_fuel, start_next,
}
use zephyrftp.Queue.Execute.{
  prepared, started_item, failed_dispatch_item, fail_dispatch, run_on, execute, start_item,
  executor_of, dispatch_entry, dispatch_active_item,
}
use zephyrftp.Queue.Rows.Closed.{Predicate, IsAt, IsClosed}

abbrev pub IsKept : Predicate → (TransferManager → TransferManager) → Type 0
IsKept P f = (s : TransferManager) → IsAt P s → IsAt P (f s)

started_item_row :
    (s : TransferManager) (item : TransferItem)
    → ((started_item s item).id ≡ item.id) × (is_queued (started_item s item).status ≡ false)
unfolding started_item prepared
started_item_row s item = (ground arith, ground arith)

failed_dispatch_item_row :
    (item : TransferItem)
    → ((failed_dispatch_item item).id ≡ item.id)
      × (is_queued (failed_dispatch_item item).status ≡ false)
unfolding failed_dispatch_item cleaned_item
failed_dispatch_item_row item = (ground arith, ground arith)

module _ (P : Predicate) (c : IsClosed P) where
  pub release-IsKept : (k : ℕ) → IsKept P (release_active_transfer k)
  unfolding release_active_transfer
  release-IsKept k s h = option-elim (IsAt P) (get_elem? s.active k) _ _ (λ _. h) (λ a _. h)

  -- A row changes and is not Queued afterwards.
  pub end-IsAt :
      (i : ℕ) (item item' : TransferItem) (s : TransferManager)
      → get_elem? s.items i ≡ some item
      → item'.id ≡ item.id
      → is_queued item'.status ≡ false
      → IsAt P s
      → P (set s.items i item') s.scan_floor s.index_by_id s.next_id
  end-IsAt i item item' s e same q h =
      c.change s.items s.scan_floor s.index_by_id s.next_id i item item' e same (ground arith) h

  module _ (again : TransferManager → TransferManager) (keep : IsKept P again) where
    execute-IsKept :
        (i k : ℕ) (a : ActiveTransfer) (item : TransferItem) (executor : Option ℕ)
        (s : TransferManager)
        → get_elem? s.items i ≡ some item
        → IsAt P s
        → IsAt P (execute again i k a item executor s)
    unfolding execute run_on fail_dispatch
    execute-IsKept i k a item none s e h =
        let (same, q) = failed_dispatch_item_row item in
        keep _ (release-IsKept k _ (end-IsAt i item (failed_dispatch_item item) s e same q h))
    execute-IsKept i k a item (some b) s e h = h

    dispatch-IsKept : (i : ℕ) → IsKept P (dispatch_active_item again i)
    unfolding dispatch_active_item dispatch_entry start_item
    dispatch-IsKept i s h =
        option-elim (IsAt P) (get_elem? s.items i) _ _ (λ _. h)
          (λ item e.
            option-elim (IsAt P) (active_index_for_item s.active i) _ _ (λ _. h)
              (λ k _.
                option-elim (IsAt P) (get_elem? s.active k) _ _ (λ _. h)
                  (λ a _.
                    let (same, q) = started_item_row s item in
                    (execute-IsKept i k a (started_item s item)
                      (executor_of s (started_item s item)) (start_item i item s)
                      (get_elem?-set_self s.items i item (started_item s item) e)
                      (end-IsAt i item (started_item s item) s e same q h)))))

    commit-IsKept :
        (i : ℕ) (item : TransferItem) (s : TransferManager)
        → get_elem? s.items i ≡ some item
        → IsAt P s
        → IsAt P (commit again i item s)
    unfolding commit claim
    commit-IsKept i item s e h =
        if-elim (IsAt P) item.skip_conflict_check_on_dispatch _ _
          (λ _.
            dispatch-IsKept i
              (put i (record item { skip_conflict_check_on_dispatch = false }) (claim i item s))
              (c.change s.items s.scan_floor s.index_by_id s.next_id i item
                (record item { skip_conflict_check_on_dispatch = false }) e refl (ground arith) h))
          (λ _. send i item item.dest_pane (claim i item s) h)
      where
        send :
            (i : ℕ) (item : TransferItem) (p : Option ℕ) (s : TransferManager)
            → IsAt P s
            → IsAt P (send_check i item p s)
        send i item none s h = unfold send_check in h
        send i item (some p) s h = unfold send_check in h

    admit-IsKept : (i : ℕ) → IsKept P (admit again i)
    unfolding admit
    admit-IsKept i s h =
        option-elim (IsAt P) (get_elem? s.items i) _ _ (λ _. h)
          (λ item e.
            if-elim (IsAt P) (must_wait s item) _ _ (λ _. h) (λ _. commit-IsKept i item s e h))

    bind_picked-IsKept :
        (i p : ℕ) (item : TransferItem) (r : Option ℕ × Pane) (s : TransferManager)
        → get_elem? s.items i ≡ some item
        → IsAt P s
        → IsAt P (bind_picked i p item r s)
    unfolding bind_picked
    bind_picked-IsKept i p item (none, pane) s e h = h
    bind_picked-IsKept i p item (some b, pane) s e h =
        c.change s.items s.scan_floor s.index_by_id s.next_id i item
          (record item { transfer_backend_captured = true; captured_transfer_backend = some b }) e
          refl (ground arith) h

    bind_pool-IsKept :
        (i : ℕ) (item : TransferItem) (p : Option ℕ) (s : TransferManager)
        → get_elem? s.items i ≡ some item
        → IsAt P s
        → IsAt P (bind_from_pool i item p s)
    unfolding bind_from_pool
    bind_pool-IsKept i item none s e h = h
    bind_pool-IsKept i item (some p) s e h =
        bind_picked-IsKept i p item (pick_idle_transfer_backend (is_claimed s.active) (s.panes p)) s
          e h

    visit-IsKept : (i : ℕ) → IsKept P (visit again i)
    unfolding visit bind_backend
    visit-IsKept i s h =
        option-elim (IsAt P) (get_elem? s.items i) _ _ (λ _. h)
          (λ item e.
            if-elim (IsAt P) (is_queued item.status) _ _
              (λ _. admit-IsKept i (bind_backend i item s) (
                if-elim (IsAt P) _ _ _
                  (λ _. bind_pool-IsKept i item (pool_pane_for_item item) s e h) (λ _. h)))
              (λ _. h))

    scan-IsKept : (n i : ℕ) → IsKept P (scan again n i)
    unfolding scan
    scan-IsKept zero i s h = h
    scan-IsKept (suc n) i s h = scan-IsKept n (suc i) (visit again i s) (visit-IsKept i s h)

  fuel-IsKept : (fuel : ℕ) → IsKept P (start_next_fuel fuel)
  unfolding start_next_fuel advance_floor reset_resolutions
  fuel-IsKept zero s h = h
  fuel-IsKept (suc fuel) s h =
      let t = scan (start_next_fuel fuel) (length s.items - s.scan_floor) s.scan_floor s in
      let scanned =
        scan-IsKept (start_next_fuel fuel) (fuel-IsKept fuel) (length s.items - s.scan_floor)
          s.scan_floor s h in
      let moved = c.advance t.items t.scan_floor t.index_by_id t.next_id scanned in
      if-elim (IsAt P) _ _ _ (λ _. moved) (λ _. moved)

  pub start_next-IsKept : IsKept P start_next
  unfolding start_next
  start_next-IsKept s h = fuel-IsKept (suc (length s.items)) s h

  pub dispatch_active-IsKept : (i : ℕ) → IsKept P (dispatch_active_item start_next i)
  dispatch_active-IsKept i = dispatch-IsKept start_next start_next-IsKept i
