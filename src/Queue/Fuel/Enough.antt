-- ===== src/Queue/Fuel/Enough.antt =====
-- The fuel that startNext starts with in the model is enough: the model satisfies the recursion of
-- transfer/TransferManager.cpp.
use zephyrftp.Base.{
  ℕ, zero, suc, ◌+◌, ◌-◌, ◌≤◌, ◌<◌, ◌≡◌, refl, sym, ap, ◌∙◌, true, false, Option, none, some, inl,
  inr, arith, Bool-cases, Option-cases, if◌then◌else◌, get_elem?, length, get_elem?-set_self,
}
use zephyrftp.Queue.Item.{TransferItem, is_queued}
use zephyrftp.Queue.State.{TransferManager, ActiveTransfer}
use zephyrftp.Queue.Lookup.{active_index_for_item}
use zephyrftp.Queue.Dispatch.{
  bind_backend, claim, send_check, commit, must_wait, admit, visit, scan, advance_floor,
  reset_resolutions, start_next_fuel, start_next,
}
use zephyrftp.Queue.Execute.{
  started_item, fail_dispatch, execute, start_item, executor_of, dispatch_entry,
  dispatch_active_item,
}
use zephyrftp.Queue.Fuel.{
  queued, count_queued-bound, NeverAdds, AgreeBelow, queued-failed, bind-queued, unchecked,
  unchecked-queued, visit-NeverAdds, start_next_fuel-NeverAdds,
}

module _ (n : ℕ) (f g : TransferManager → TransferManager) (less : NeverAdds f)
    (same : AgreeBelow n f g) where
  execute-agree :
      (i k : ℕ) (a : ActiveTransfer) (item : TransferItem) (executor : Option ℕ)
      (s : TransferManager)
      → get_elem? s.items i ≡ some item
      → is_queued item.status ≡ true
      → queued s ≤ n
      → execute f i k a (started_item s item) executor (start_item i item s)
        ≡ execute g i k a (started_item s item) executor (start_item i item s)
  unfolding execute
  execute-agree i k a item none s e q b =
      same (fail_dispatch i k (started_item s item) (start_item i item s))
        (ground (arith, queued-failed i k item s e))
  execute-agree i k a item (some x) s e q b = refl

  dispatch-agree :
      (i : ℕ) (item : TransferItem) (s : TransferManager)
      → get_elem? s.items i ≡ some item
      → is_queued item.status ≡ true
      → queued s ≤ n
      → dispatch_active_item f i s ≡ dispatch_active_item g i s
  unfolding dispatch_active_item dispatch_entry
  dispatch-agree i item s e q b = elim (Option-cases (active_index_for_item s.active i)) [
    | inl m ↦ rw (e, m, dispatch_active_item) refl
    | inr (k, x) ↦ elim (Option-cases (get_elem? s.active k)) [
      | inl m ↦ rw (e, x, m, dispatch_active_item) refl
      | inr (a, y) ↦
          rw (e, x, y, dispatch_active_item)
            (execute-agree i k a item (executor_of s (started_item s item)) s e q b)
    ]
  ]

  commit-agree :
      (i : ℕ) (item : TransferItem) (s : TransferManager)
      → get_elem? s.items i ≡ some item
      → is_queued item.status ≡ true
      → queued s ≤ n
      → commit f i item s ≡ commit g i item s
  unfolding commit
  commit-agree i item s e q b =
      ap
        (λ (t : TransferManager).
          if item.skip_conflict_check_on_dispatch
          then t
          else send_check i item item.dest_pane (claim i item s))
        (dispatch-agree i (record item { skip_conflict_check_on_dispatch = false })
          (unchecked i item s)
          (unfold claim in
            get_elem?-set_self s.items i item
              (record item { skip_conflict_check_on_dispatch = false }) e)
          q (omega (arith, unchecked-queued i item s e)))

  admit-agree :
      (i : ℕ) (item : TransferItem) (s : TransferManager)
      → get_elem? s.items i ≡ some item
      → is_queued item.status ≡ true
      → queued s ≤ n
      → admit f i s ≡ admit g i s
  unfolding admit
  admit-agree i item s e q b =
      rw (e, admit)
        (ap (λ (t : TransferManager). if must_wait s item then s else t)
          (commit-agree i item s e q b))

  visit-agree : (i : ℕ) (s : TransferManager) → queued s ≤ n → visit f i s ≡ visit g i s
  unfolding visit
  visit-agree i s b = elim (Option-cases (get_elem? s.items i)) [
    | inl m ↦ rw (m, visit) refl
    | inr (item, e) ↦ elim (Bool-cases (is_queued item.status)) [
      | inr d ↦ rw (e, d, visit) refl
      | inl q ↦
          let (count, (it, e', st)) = bind-queued i item s e in
          rw (e, q, visit)
            (admit-agree i it (bind_backend i item s) e' (ap is_queued st ∙ q)
              (omega (arith, count, b)))
    ]
  ]

  scan-agree : (k i : ℕ) (s : TransferManager) → queued s ≤ n → scan f k i s ≡ scan g k i s
  unfolding scan
  scan-agree zero i s b = refl
  scan-agree (suc k) i s b =
      scan-agree k (suc i) (visit f i s) (omega (arith, visit-NeverAdds f less i s, b))
      ∙ ap (scan g k (suc i)) (visit-agree i s b)

-- One more than the number of Queued items is enough fuel.
fuel_enough :
    (n : ℕ) (s : TransferManager) → queued s < n → start_next_fuel n s ≡ start_next_fuel (suc n) s
unfolding start_next_fuel
fuel_enough zero s b = absurd (omega (arith, b))
fuel_enough (suc n) s b =
    ap (λ (t : TransferManager). reset_resolutions (advance_floor t))
      (scan-agree n (start_next_fuel n) (start_next_fuel (suc n)) (start_next_fuel-NeverAdds n)
        (fuel_enough n) (length s.items - s.scan_floor) s.scan_floor s (omega (arith, b)))

fuel_more :
    (d n : ℕ) (s : TransferManager) → queued s < n → start_next_fuel n s ≡ start_next_fuel (n + d) s
fuel_more zero n s b = ap (λ (m : ℕ). start_next_fuel m s) (omega arith)
fuel_more (suc d) n s b =
    fuel_enough n s b
    ∙ fuel_more d (suc n) s (omega (arith, b))
    ∙ ap (λ (m : ℕ). start_next_fuel m s) (omega arith)

fuel_same :
    (n m : ℕ) (s : TransferManager)
    → queued s < n
    → queued s < m
    → start_next_fuel n s ≡ start_next_fuel m s
fuel_same n m s b c =
    fuel_more m n s b ∙ ap (λ (k : ℕ). start_next_fuel k s) (omega arith) ∙ sym (fuel_more n m s c)

start_next-fuel : (n : ℕ) (s : TransferManager) → queued s < n → start_next_fuel n s ≡ start_next s
unfolding start_next
start_next-fuel n s b =
    fuel_same n (suc (length s.items)) s b (omega (arith, count_queued-bound s.items))

-- startNext terminates and is its own recursion: it scans from the floor to the end of the list,
-- with itself as the scan that follows a dispatch without a backend, then moves the floor and
-- forgets the remembered answers if nothing is left. No fuel is left in this equation.
pub start_next_recursion :
    (s : TransferManager)
    → start_next s
      ≡ reset_resolutions
          (advance_floor (scan start_next (length s.items - s.scan_floor) s.scan_floor s))
unfolding start_next_fuel
start_next_recursion s =
    unfold start_next in
    ap (λ (t : TransferManager). reset_resolutions (advance_floor t))
      (scan-agree (length s.items) (start_next_fuel (length s.items)) start_next
        (start_next_fuel-NeverAdds (length s.items)) (start_next-fuel (length s.items))
        (length s.items - s.scan_floor) s.scan_floor s (count_queued-bound s.items))
