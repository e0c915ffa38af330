-- ===== src/Queue/Claims/Cancelling.antt =====
-- cancelItem keeps the invariant.
use zephyrftp.Base.{
  ℕ, ◌≡◌, refl, ◌∙◌, true, false, ◌||◌, List, ◌∷◌, none, some, inl, inr, arith, option-elim,
  if-elim, get_elem?, set, All-get, All-set,
}
use zephyrftp.Queue.Item.{TransferItem, TransferStatus, is_queued, is_in_progress}
use zephyrftp.Queue.State.{TransferManager, ActiveTransfer, Effect, item_updated}
use zephyrftp.Queue.Lookup.{
  active_index_for_item, index_of_id, release_active_transfer, cleaned_item,
}
use zephyrftp.Queue.Dispatch.{start_next}
use zephyrftp.Queue.Controls.{cancelled_item, cancel_active, cancel_waiting, cancel_at, cancel_item}
use zephyrftp.Queue.Claims.Lists.{covers_self, Exclusive-set}
use zephyrftp.Queue.Claims.Keys.{
  active_index_found, active_index_none, DistinctItems-set, DistinctKeys-set,
}
use zephyrftp.Queue.Claims.Invariant.{Inv-set_absent}
use zephyrftp.Queue.Claims.Dispatching.{InvOf, Safe, SoundIn, finish-Inv}
use zephyrftp.Queue.Claims.Adding.{KeepsSafe, start_next-KeepsSafe, has_item_of_dead}

-- An item that no entry holds is replaced; whatever else changes, the invariant does not see it.
pub replace-Inv :
    (i : ℕ) (item item' : TransferItem) (s : TransferManager)
    → InvOf s
    → get_elem? s.items i ≡ some item
    → is_queued item.status || is_in_progress item.status ≡ false
    → SoundIn s item'
    → item'.direction ≡ item.direction
    → InvOf (record s { items = set s.items i item' })
replace-Inv i item item' s v e dead g d =
    Inv-set_absent _ _ _ _ _ i item item' v e (has_item_of_dead s i item v e dead) g d

-- The cancelled flag of an entry is set.
flag-Inv :
    (k : ℕ) (a : ActiveTransfer) (s : TransferManager)
    → InvOf s
    → get_elem? s.active k ≡ some a
    → InvOf (record s { active = set s.active k (record a { cancelled = true }) })
flag-Inv k a s v at =
    let o = All-get _ s.active k a v.owned at in
    record {
      exclusive = Exclusive-set s.active k a _ v.exclusive at (covers_self a.claimed_backends);
      distinct_items = DistinctItems-set s.active k a _ v.distinct_items at refl;
      distinct_keys = DistinctKeys-set s.active k a _ v.distinct_keys at refl;
      held = All-set _ s.active k _ v.held (All-get _ s.active k a v.held at);
      owned = All-set _ s.active k _ v.owned (
        o.0,
        o.1,
        (record {
          live = o.2.live;
          covered = o.2.covered;
          unmoved = o.2.unmoved;
          executing = o.2.executing;
          captured = o.2.captured;
          keyed = o.2.keyed;
        }),
      );
      sound = v.sound;
      moving = v.moving;
    }

cancelled_item-Sound :
    (s : TransferManager) (item : TransferItem) → SoundIn s item → SoundIn s (cancelled_item item)
unfolding cancelled_item cleaned_item
cancelled_item-Sound s item g = ((λ r. ground (arith, g.0)), ground arith)

cancelled_item-direction : (item : TransferItem) → (cancelled_item item).direction ≡ item.direction
unfolding cancelled_item cleaned_item
cancelled_item-direction item = ground arith

release-crashed : (k : ℕ) (s : TransferManager) → (release_active_transfer k s).crashed ≡ s.crashed
unfolding release_active_transfer
release-crashed k s = ground arith

-- A step that leaves the crash flag alone.
pub Safe-step :
    (s s' : TransferManager) → s'.crashed ≡ s.crashed → (InvOf s → InvOf s') → Safe s → Safe s'
Safe-step s s' same keep (inl c) = inl (same ∙ c)
Safe-step s s' same keep (inr v) = inr (keep v)

-- An item ends, its entry goes, and the scan runs.
pub finish-KeepsSafe :
    (k i : ℕ) (item item' : TransferItem) (a : ActiveTransfer) (log : List Effect)
    (s : TransferManager)
    → Safe s
    → get_elem? s.active k ≡ some a
    → a.item_index ≡ i
    → get_elem? s.items i ≡ some item
    → (SoundIn s item → SoundIn s item')
    → item'.direction ≡ item.direction
    → Safe (
        start_next
          (release_active_transfer k (record s { items = set s.items i item'; log = log })))
finish-KeepsSafe k i item item' a log s h at q e g d =
    let s' = record s { items = set s.items i item'; log = log } in
    start_next-KeepsSafe (release_active_transfer k s') (
      Safe-step s (release_active_transfer k s') (release-crashed k s')
        (λ v. finish-Inv k i item item' a log s v at q e (g (All-get _ s.items i item v.sound e)) d)
        h)

cancel_active-Safe :
    (i : ℕ) (item : TransferItem) (k : ℕ) (a : ActiveTransfer) (s : TransferManager)
    → Safe s
    → get_elem? s.items i ≡ some item
    → get_elem? s.active k ≡ some a
    → a.item_index ≡ i
    → Safe (cancel_active i item k a s)
unfolding cancel_active
cancel_active-Safe i item k a s h e at q =
    option-elim Safe a.current_executor _ _
      (λ _.
        finish-KeepsSafe k i item (cancelled_item item) a _ s h at q e (cancelled_item-Sound s item)
          (cancelled_item-direction item))
      (λ b _.
        Safe-step s (record s { active = set s.active k (record a { cancelled = true }) }) refl
          (λ v. flag-Inv k a s v at) h)

cancel_waiting-Safe :
    (i : ℕ) (item : TransferItem) (s : TransferManager)
    → Safe s
    → get_elem? s.items i ≡ some item
    → active_index_for_item s.active i ≡ none
    → Safe (cancel_waiting i item s)
unfolding cancel_waiting
cancel_waiting-Safe i item s h e n =
    if-elim Safe _ _ _
      (λ _.
        Safe-step s
          (record s {
            items = set s.items i (record item { status = TransferStatus.cancelled });
            log = item_updated (record item { status = TransferStatus.cancelled }) ∷ s.log;
          })
          refl
          (λ v.
            let g = All-get _ s.items i item v.sound e in
            Inv-set_absent _ _ _ _ _ i item (record item { status = TransferStatus.cancelled }) v e
              (active_index_none s.active i n) ((λ r. ground (arith, g.0)), ground arith) refl)
          h)
      (λ _. h)

cancel_at-KeepsSafe : (i : ℕ) → KeepsSafe (cancel_at i)
unfolding cancel_at
cancel_at-KeepsSafe i s h =
    option-elim Safe (get_elem? s.items i) _ _ (λ _. h)
      (λ item e.
        option-elim Safe (active_index_for_item s.active i) _ _
          (λ n. cancel_waiting-Safe i item s h e n)
          (λ k f.
            let (a, at, q) = active_index_found s.active i k f in
            rw at (cancel_active-Safe i item k a s h e at q)))

pub cancel_item-KeepsSafe : (id : ℕ) → KeepsSafe (cancel_item id)
unfolding cancel_item
cancel_item-KeepsSafe id s h =
    option-elim Safe (index_of_id s id) _ _ (λ _. h) (λ i _. cancel_at-KeepsSafe i s h)
