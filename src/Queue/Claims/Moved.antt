-- ===== src/Queue/Claims/Moved.antt =====
-- onEntryMoved and onEntryMoveFailed keep the invariant: the item of a move is in no entry.
use zephyrftp.Base.{
  ℕ, ◌≡◌, refl, ap, true, false, some, ◌⊎◌, inl, inr, arith, Option-cases, option-elim, get_elem?,
  set, All-get,
}
use zephyrftp.Base.Text.{Text}
use zephyrftp.Base.Maps.{lookup, erase}
use zephyrftp.Queue.Item.{TransferItem, TransferStatus, is_move, is_remote_to_remote, reported}
use zephyrftp.Queue.State.{TransferManager}
use zephyrftp.Queue.Lookup.{active_index_for_item, index_of_id}
use zephyrftp.Queue.Replies.{maybe_reset_move}
use zephyrftp.Queue.Signals.{
  settle_move, move_done, move_failed, on_entry_moved, on_entry_move_failed,
}
use zephyrftp.Queue.Claims.Lists.{has_item}
use zephyrftp.Queue.Claims.Keys.{active_index_found, active_index_none}
use zephyrftp.Queue.Claims.Moves.{Moving-erase, Moving-lookup}
use zephyrftp.Queue.Claims.Invariant.{is_waiting, Inv-set_absent, Owned-item}
use zephyrftp.Queue.Claims.Dispatching.{InvOf, Safe}
use zephyrftp.Queue.Claims.Adding.{KeepsSafe}
use zephyrftp.Queue.Claims.Cancelling.{Safe-step}
use zephyrftp.Queue.Claims.Pending.{maybe_reset_move-KeepsSafe}

has_item_of_move :
    (s : TransferManager) (i : ℕ) (item : TransferItem)
    → InvOf s
    → get_elem? s.items i ≡ some item
    → is_move item.direction ≡ true
    → has_item i s.active ≡ false
has_item_of_move s i item v e m = elim (Option-cases (active_index_for_item s.active i)) [
  | inl n ↦ active_index_none s.active i n
  | inr (k, f) ↦
      let (a, at, q) = active_index_found s.active i k f in
      let h = Owned-item _ _ s.items a i item (All-get _ s.active k a v.owned at) q e in
      absurd (ground (arith, h.unmoved))
]

erase-Inv :
    (request : ℕ) (s : TransferManager)
    → InvOf s
    → InvOf (record s { pending_move_item_id = erase request s.pending_move_item_id })
erase-Inv request s v = record {
  exclusive = v.exclusive;
  distinct_items = v.distinct_items;
  distinct_keys = v.distinct_keys;
  held = v.held;
  owned = v.owned;
  sound = v.sound;
  moving = Moving-erase s.index_by_id s.next_id s.items request s.pending_move_item_id v.moving;
}

-- A move that was pending is found as a move.
pending_is_move :
    (s : TransferManager) (request id i : ℕ) (item : TransferItem)
    → InvOf s
    → lookup request s.pending_move_item_id ≡ some id
    → index_of_id s id ≡ some i
    → get_elem? s.items i ≡ some item
    → is_move item.direction ≡ true
unfolding index_of_id
pending_is_move s request id i item v l x e =
    let (below, (j, it, at, get, m)) =
      Moving-lookup s.index_by_id s.next_id s.items request id s.pending_move_item_id v.moving l in
    let same : j ≡ i = ground arith in ground (arith, ap (λ (n : ℕ). get_elem? s.items n) same)

settled_is_move :
    (s : TransferManager) (request id i : ℕ) (item : TransferItem)
    → Safe s
    → lookup request s.pending_move_item_id ≡ some id
    → index_of_id
        (maybe_reset_move
          (record s { pending_move_item_id = erase request s.pending_move_item_id }))
        id
      ≡ some i
    → get_elem?
        (maybe_reset_move
          (record s { pending_move_item_id = erase request s.pending_move_item_id })).items
        i
      ≡ some item
    → ((maybe_reset_move
          (record s { pending_move_item_id = erase request s.pending_move_item_id })).crashed
        ≡ true)
      ⊎ (is_move item.direction ≡ true)
unfolding maybe_reset_move index_of_id
settled_is_move s request id i item (inl c) l x e = inl (ground arith)
settled_is_move s request id i item (inr v) l x e =
    inr
      (pending_is_move s request id i item v l (unfold index_of_id in ground arith) (ground arith))

-- A handler is safe if it is so for an item that is a move.
settle_move-KeepsSafe :
    (request : ℕ) (settle : ℕ → TransferItem → TransferManager → TransferManager)
    → ((i : ℕ) (item : TransferItem) (s : TransferManager)
        → Safe s
        → get_elem? s.items i ≡ some item
        → (s.crashed ≡ true) ⊎ (is_move item.direction ≡ true)
        → Safe (settle i item s))
    → KeepsSafe (settle_move request settle)
unfolding settle_move
settle_move-KeepsSafe request settle f s h =
    option-elim Safe (lookup request s.pending_move_item_id) _ _ (λ _. h)
      (λ id l.
        let s₀ = record s { pending_move_item_id = erase request s.pending_move_item_id } in
        let h' = maybe_reset_move-KeepsSafe s₀ (Safe-step s s₀ refl (erase-Inv request s) h) in
        option-elim Safe (index_of_id (maybe_reset_move s₀) id) _ _ (λ _. h')
          (λ i x.
            option-elim Safe (get_elem? (maybe_reset_move s₀).items i) _ _ (λ _. h')
              (λ item e.
                f i item (maybe_reset_move s₀) h' e (settled_is_move s request id i item h l x e))))

ended_move-Safe :
    (i : ℕ) (item item' : TransferItem) (s : TransferManager)
    → Safe s
    → get_elem? s.items i ≡ some item
    → (s.crashed ≡ true) ⊎ (is_move item.direction ≡ true)
    → is_waiting item'.status ≡ false
    → item'.direction ≡ item.direction
    → Safe (record s { items = set s.items i item' })
ended_move-Safe i item item' s (inl c) e m w d = inl c
ended_move-Safe i item item' s (inr v) e (inl c) w d = inl c
ended_move-Safe i item item' s (inr v) e (inr m) w d = inr (
    Inv-set_absent _ _ _ _ _ i item item' v e (has_item_of_move s i item v e m)
      ((λ r. absurd (ground (arith, ap is_remote_to_remote d))), ground arith) d)

pub on_entry_moved-KeepsSafe : (request : ℕ) → KeepsSafe (on_entry_moved request)
unfolding on_entry_moved move_done
on_entry_moved-KeepsSafe request = settle_move-KeepsSafe request move_done (λ i item s h e m.
    ended_move-Safe i item (record item { status = TransferStatus.done }) s h e m refl refl)

pub on_entry_move_failed-KeepsSafe :
    (reason : Text) (request : ℕ) → KeepsSafe (on_entry_move_failed reason request)
unfolding on_entry_move_failed move_failed
on_entry_move_failed-KeepsSafe reason request =
    settle_move-KeepsSafe request (move_failed reason) (λ i item s h e m.
      ended_move-Safe i item
        (record item { status = TransferStatus.failed; error_message = reported reason }) s h e m
        refl refl)
