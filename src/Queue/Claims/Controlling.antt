-- ===== src/Queue/Claims/Controlling.antt =====
-- retryItem, clearItems, pauseItem and resumeItem keep the invariant.
use zephyrftp.Base.{
  ℕ, ◌≡◌, refl, true, false, ◌||◌, List, [], ◌∷◌, some, inl, arith, option-elim, if-elim, get_elem?,
  set, All-get,
}
use zephyrftp.Queue.Item.{
  TransferItem, is_queued, is_paused, is_in_progress, is_retryable, is_terminal, is_move,
}
use zephyrftp.Queue.State.{TransferManager, ActiveTransfer, item_updated}
use zephyrftp.Queue.Lookup.{active_index_for_item, index_of_id}
use zephyrftp.Queue.Controls.{
  restarted_item, lowered, retry_at, retry_item, clear_one, clear_items, pause_entry, pause_item,
  resumed_item, resume_item,
}
use zephyrftp.Queue.Claims.Keys.{active_index_found}
use zephyrftp.Queue.Claims.Dispatching.{Safe, SoundIn}
use zephyrftp.Queue.Claims.Adding.{KeepsSafe, start_next-KeepsSafe}
use zephyrftp.Queue.Claims.Cancelling.{replace-Inv, Safe-step}

-- An item that no entry holds is replaced, and the floor comes down to it.
pub replace-Safe :
    (i : ℕ) (item item' : TransferItem) (s : TransferManager)
    → Safe s
    → get_elem? s.items i ≡ some item
    → is_queued item.status || is_in_progress item.status ≡ false
    → (SoundIn s item → SoundIn s item')
    → item'.direction ≡ item.direction
    → Safe (record s { items = set s.items i item' })
replace-Safe i item item' s h e dead g d =
    Safe-step s (record s { items = set s.items i item' }) refl
      (λ v. replace-Inv i item item' s v e dead (g (All-get _ s.items i item v.sound e)) d) h

restarted_item-Sound :
    (s : TransferManager) (item : TransferItem)
    → is_move item.direction ≡ false
    → SoundIn s (restarted_item item)
unfolding restarted_item
restarted_item-Sound s item m = ((λ r. inl (ground arith, ground arith)), ground arith)

restarted_item-direction : (item : TransferItem) → (restarted_item item).direction ≡ item.direction
unfolding restarted_item
restarted_item-direction item = ground arith

retry_at-Safe :
    (i : ℕ) (item : TransferItem) (s : TransferManager)
    → Safe s
    → get_elem? s.items i ≡ some item
    → is_retryable item.status ≡ true
    → Safe (retry_at i item s)
unfolding retry_at
retry_at-Safe i item s h e r =
    if-elim Safe (is_move item.direction) _ _ (λ _. h)
      (λ m.
        start_next-KeepsSafe
          (record s {
            items = set s.items i (restarted_item item);
            scan_floor = lowered i s.scan_floor;
            log = item_updated (restarted_item item) ∷ s.log;
          })
          (replace-Safe i item (restarted_item item) s h e (ground arith)
            (λ _. restarted_item-Sound s item m) (restarted_item-direction item)))

pub retry_item-KeepsSafe : (id : ℕ) → KeepsSafe (retry_item id)
unfolding retry_item
retry_item-KeepsSafe id s h =
    option-elim Safe (index_of_id s id) _ _ (λ _. h)
      (λ i _.
        option-elim Safe (get_elem? s.items i) _ _ (λ _. h)
          (λ item e.
            if-elim Safe (is_retryable item.status) _ _ (λ r. retry_at-Safe i item s h e r)
              (λ _. h)))

clear_one-KeepsSafe : (id : ℕ) → KeepsSafe (clear_one id)
unfolding clear_one
clear_one-KeepsSafe id s h =
    option-elim Safe (index_of_id s id) _ _ (λ _. h)
      (λ i _.
        option-elim Safe (get_elem? s.items i) _ _ (λ _. h)
          (λ item e.
            if-elim Safe (is_terminal item.status) _ _
              (λ t.
                replace-Safe i item (record item { cleared_from_queue = true }) s h e (ground arith)
                  (λ g. g) refl)
              (λ _. h)))

pub clear_items-KeepsSafe : (ids : List ℕ) → KeepsSafe (clear_items ids)
unfolding clear_items
clear_items-KeepsSafe [] s h = h
clear_items-KeepsSafe (id ∷ ids) s h =
    clear_items-KeepsSafe ids (clear_one id s) (clear_one-KeepsSafe id s h)

pause_entry-KeepsSafe : (a : ActiveTransfer) → KeepsSafe (pause_entry a)
unfolding pause_entry
pause_entry-KeepsSafe a s h = option-elim Safe a.current_executor _ _ (λ _. h) (λ b _. h)

pub pause_item-KeepsSafe : (id : ℕ) → KeepsSafe (pause_item id)
unfolding pause_item
pause_item-KeepsSafe id s h =
    option-elim Safe (index_of_id s id) _ _ (λ _. h)
      (λ i _.
        option-elim Safe (active_index_for_item s.active i) _ _ (λ _. h)
          (λ k g.
            let (a, at, q) = active_index_found s.active i k g in
            rw at (pause_entry-KeepsSafe a s h)))

resumed_item-Sound :
    (s : TransferManager) (item : TransferItem)
    → is_paused item.status ≡ true
    → SoundIn s item
    → SoundIn s (resumed_item item)
unfolding resumed_item
resumed_item-Sound s item p g = (g.0, ground (arith, g.1))

pub resume_item-KeepsSafe : (id : ℕ) → KeepsSafe (resume_item id)
unfolding resume_item resumed_item
resume_item-KeepsSafe id s h =
    option-elim Safe (index_of_id s id) _ _ (λ _. h)
      (λ i _.
        option-elim Safe (get_elem? s.items i) _ _ (λ _. h)
          (λ item e.
            if-elim Safe (is_paused item.status) _ _
              (λ t.
                start_next-KeepsSafe
                  (record s {
                    items = set s.items i (resumed_item item);
                    scan_floor = lowered i s.scan_floor;
                    log = item_updated (resumed_item item) ∷ s.log;
                  })
                  (replace-Safe i item (resumed_item item) s h e (ground arith)
                    (λ g. resumed_item-Sound s item t g) refl))
              (λ _. h)))
