-- ===== src/Queue/Rows/Whole.antt =====
-- The scan floor of transfer/TransferManager.cpp saves work and changes nothing.
use zephyrftp.Base.{
  ℕ, zero, suc, ◌+◌, ◌-◌, ◌<◌, ◌≡◌, refl, sym, ap, ◌∙◌, false, some, get_elem?, length, option-elim,
  arith,
}
use zephyrftp.Base.Text.{Text}
use zephyrftp.Backends.Identity.{Backend}
use zephyrftp.Queue.Panes.{Pane}
use zephyrftp.Queue.Item.{TransferItem, is_queued}
use zephyrftp.Queue.State.{TransferManager}
use zephyrftp.Queue.Dispatch.{visit, scan, advance_floor, reset_resolutions, start_next}
use zephyrftp.Queue.Events.{Reachable}
use zephyrftp.Queue.Fuel.Enough.{start_next_recursion}
use zephyrftp.Queue.Rows.Floor.{Reachable-IsFloored}

module _ (again : TransferManager → TransferManager) where
  -- The body of the loop does nothing to a row that is not Queued.
  visit_resolved :
      (i : ℕ) (s : TransferManager)
      → ((item : TransferItem) → get_elem? s.items i ≡ some item → is_queued item.status ≡ false)
      → visit again i s ≡ s
  unfolding visit
  visit_resolved i s h =
      option-elim (λ (u : TransferManager). u ≡ s) (get_elem? s.items i) _ _ (λ n. refl)
        (λ item e. rw (h item e) refl)

  -- The rounds over rows that are not Queued are idle.
  scan_resolved :
      (n i m j rounds : ℕ) (s : TransferManager)
      → m ≡ n + rounds
      → j ≡ i + n
      → ((k : ℕ) (item : TransferItem)
          → get_elem? s.items k ≡ some item
          → k < j
          → is_queued item.status ≡ false)
      → scan again m i s ≡ scan again rounds j s
  unfolding scan
  scan_resolved zero i m j rounds s e f h =
      let same : m ≡ rounds = omega arith in
      let start : i ≡ j = omega arith in
      ap (λ k. scan again k i s) same ∙ ap (λ k. scan again rounds k s) start
  scan_resolved (suc n) i m j rounds s e f h =
      let same : m ≡ suc (n + rounds) = omega arith in
      ap (λ k. scan again k i s) same
      ∙ (ap (scan again (n + rounds) (suc i))
            (visit_resolved i s (λ item g. h i item g (omega arith)))
          ∙ scan_resolved n (suc i) (n + rounds) j rounds s refl (omega arith) h)

-- In every state that the queue reaches, startNext does what a scan over all rows would do: it is
-- its own recursion from the first row on.
pub start_next_scans_all :
    (panes : ℕ → Pane) (backends : ℕ → Backend) (staging : Text) (s : TransferManager)
    → Reachable panes backends staging s
    → start_next s ≡ reset_resolutions (advance_floor (scan start_next (length s.items) 0 s))
start_next_scans_all panes backends staging s r =
    let (inside, resolved) = Reachable-IsFloored panes backends staging s r in
    start_next_recursion s
    ∙ ap (λ (t : TransferManager). reset_resolutions (advance_floor t))
        (sym (
          scan_resolved start_next s.scan_floor 0 (length s.items) s.scan_floor
            (length s.items - s.scan_floor) s (omega arith) (omega arith) resolved))
