-- ===== src/Queue/Claims/Crash.antt =====
-- No operation undoes a crash.
use zephyrftp.Base.{
  ℕ, zero, suc, ◌≡◌, refl, true, false, ◌-◌, Option, none, some, arith, Option-cases, option-elim,
  get_elem?, if-elim, length,
}
use zephyrftp.Queue.Item.{TransferItem, is_queued}
use zephyrftp.Queue.State.{TransferManager, ActiveTransfer, put}
use zephyrftp.Queue.Lookup.{
  release_active_transfer, active_index_for_item, pool_pane_for_item, is_claimed,
}
use zephyrftp.Queue.Panes.{pick_idle_transfer_backend}
use zephyrftp.Queue.Dispatch.{
  bind_picked, bind_from_pool, bind_backend, claim, send_check, commit, admit, must_wait, visit,
  scan, advance_floor, reset_resolutions, start_next_fuel, start_next,
}
use zephyrftp.Queue.Execute.{
  started_item, executor_of, fail_dispatch, run_on, execute, start_item, dispatch_entry,
  dispatch_active_item,
}

-- A crash stays one.
abbrev pub KeepsCrash : (TransferManager → TransferManager) → Type 0
KeepsCrash f = (s : TransferManager) → s.crashed ≡ true → (f s).crashed ≡ true

pub release-KeepsCrash : (k : ℕ) → KeepsCrash (release_active_transfer k)
unfolding release_active_transfer
release-KeepsCrash k s c = ground arith

fail_dispatch-KeepsCrash : (i k : ℕ) (item : TransferItem) → KeepsCrash (fail_dispatch i k item)
unfolding fail_dispatch
fail_dispatch-KeepsCrash i k item s c = release-KeepsCrash k _ c

claim-KeepsCrash : (i : ℕ) (item : TransferItem) → KeepsCrash (claim i item)
unfolding claim
claim-KeepsCrash i item s c = c

bind_from_pool-KeepsCrash :
    (i : ℕ) (item : TransferItem) (p : Option ℕ) → KeepsCrash (bind_from_pool i item p)
unfolding bind_from_pool bind_picked
bind_from_pool-KeepsCrash i item none s c = c
bind_from_pool-KeepsCrash i item (some p) s c =
    ground (arith, Option-cases (pick_idle_transfer_backend (is_claimed s.active) (s.panes p)).0)

bind-KeepsCrash : (i : ℕ) (item : TransferItem) → KeepsCrash (bind_backend i item)
unfolding bind_backend
bind-KeepsCrash i item s c =
    ground (arith, bind_from_pool-KeepsCrash i item (pool_pane_for_item item) s c)

module _ (again : TransferManager → TransferManager) (keep : KeepsCrash again) where
  execute-KeepsCrash :
      (i k : ℕ) (a : ActiveTransfer) (item : TransferItem) (executor : Option ℕ)
      → KeepsCrash (execute again i k a item executor)
  unfolding execute run_on
  execute-KeepsCrash i k a item none s c = keep _ (fail_dispatch-KeepsCrash i k item s c)
  execute-KeepsCrash i k a item (some b) s c = c

  dispatch_entry-KeepsCrash :
      (i k : ℕ) (a : ActiveTransfer) (item : TransferItem)
      → KeepsCrash (dispatch_entry again i k a item)
  unfolding dispatch_entry start_item
  dispatch_entry-KeepsCrash i k a item s c =
      execute-KeepsCrash i k a (started_item s item) (executor_of s (started_item s item))
        (start_item i item s) c

  pub dispatch_active_item-KeepsCrash : (i : ℕ) → KeepsCrash (dispatch_active_item again i)
  unfolding dispatch_active_item
  dispatch_active_item-KeepsCrash i s c =
      option-elim (λ (u : TransferManager). u.crashed ≡ true) (get_elem? s.items i) _ _ (λ _. c)
        (λ item _.
          option-elim (λ (u : TransferManager). u.crashed ≡ true) (active_index_for_item s.active i)
            _ _ (λ _. c)
            (λ k _.
              option-elim (λ (u : TransferManager). u.crashed ≡ true) (get_elem? s.active k) _ _
                (λ _. c) (λ a _. dispatch_entry-KeepsCrash i k a item s c)))

  send_check-KeepsCrash :
      (i : ℕ) (item : TransferItem) (p : Option ℕ) → KeepsCrash (send_check i item p)
  unfolding send_check
  send_check-KeepsCrash i item none s c = refl
  send_check-KeepsCrash i item (some p) s c = c

  commit-KeepsCrash : (i : ℕ) (item : TransferItem) → KeepsCrash (commit again i item)
  unfolding commit
  commit-KeepsCrash i item s c =
      if-elim (λ (u : TransferManager). u.crashed ≡ true) item.skip_conflict_check_on_dispatch _ _
        (λ _.
          dispatch_active_item-KeepsCrash i
            (put i (record item { skip_conflict_check_on_dispatch = false }) (claim i item s))
            (claim-KeepsCrash i item s c))
        (λ _.
          send_check-KeepsCrash i item item.dest_pane (claim i item s)
            (claim-KeepsCrash i item s c))

  admit-KeepsCrash : (i : ℕ) → KeepsCrash (admit again i)
  unfolding admit
  admit-KeepsCrash i s c =
      option-elim (λ (u : TransferManager). u.crashed ≡ true) (get_elem? s.items i) _ _ (λ _. c)
        (λ item _.
          if-elim (λ (u : TransferManager). u.crashed ≡ true) (must_wait s item) _ _ (λ _. c)
            (λ _. commit-KeepsCrash i item s c))

  pub visit-KeepsCrash : (i : ℕ) → KeepsCrash (visit again i)
  unfolding visit
  visit-KeepsCrash i s c =
      option-elim (λ (u : TransferManager). u.crashed ≡ true) (get_elem? s.items i) _ _ (λ _. c)
        (λ item _.
          if-elim (λ (u : TransferManager). u.crashed ≡ true) (is_queued item.status) _ _
            (λ _. admit-KeepsCrash i (bind_backend i item s) (bind-KeepsCrash i item s c)) (λ _. c))

  pub scan-KeepsCrash : (n i : ℕ) → KeepsCrash (scan again n i)
  unfolding scan
  scan-KeepsCrash zero i s c = c
  scan-KeepsCrash (suc n) i s c =
      scan-KeepsCrash n (suc i) (visit again i s) (visit-KeepsCrash i s c)

reset-KeepsCrash : KeepsCrash reset_resolutions
unfolding reset_resolutions
reset-KeepsCrash s c = ground arith

pub start_next_fuel-KeepsCrash : (fuel : ℕ) → KeepsCrash (start_next_fuel fuel)
unfolding start_next_fuel advance_floor
start_next_fuel-KeepsCrash zero s c = c
start_next_fuel-KeepsCrash (suc fuel) s c =
    let scanned = scan (start_next_fuel fuel) (length s.items - s.scan_floor) s.scan_floor s in
    reset-KeepsCrash (advance_floor scanned) (
      scan-KeepsCrash (start_next_fuel fuel) (start_next_fuel-KeepsCrash fuel)
        (length s.items - s.scan_floor) s.scan_floor s c)

pub start_next-KeepsCrash : KeepsCrash start_next
unfolding start_next
start_next-KeepsCrash s c = start_next_fuel-KeepsCrash (suc (length s.items)) s c
