-- ===== src/Queue/Claims/Dispatching.antt =====
-- dispatchActiveItem keeps the invariant, given that the inner scan does.
use zephyrftp.Base.{
  ℕ, ◌≡◌, refl, sym, ap, subst, ◌∙◌, true, false, List, Option, none, some, ◌⊎◌, inr, arith,
  option-elim, get_elem?, set, remove_at, All-get, get_elem?-set_self,
}
use zephyrftp.Queue.Item.{TransferItem, TransferStatus, is_move, is_remote_to_remote}
use zephyrftp.Queue.State.{TransferManager, ActiveTransfer, Effect}
use zephyrftp.Queue.Lookup.{
  primary_of, backend_of, reservation_key_at, required_backends_for_dispatch, active_index_for_item,
  release_active_transfer,
}
use zephyrftp.Queue.Execute.{
  started_item, failed_dispatch_item, fail_dispatch, run_on, dispatch_entry, dispatch_active_item,
  execute, start_item,
}
use zephyrftp.Queue.Claims.Lists.{covers}
use zephyrftp.Queue.Claims.Keys.{active_index_found}
use zephyrftp.Queue.Claims.Invariant.{needs, Staged, Sound, Holds, Inv, Inv-set}
use zephyrftp.Queue.Claims.Entries.{unreserve, Inv-run, Inv-finish}

-- The invariant of a state of the queue.
abbrev pub InvOf : TransferManager → Type 0
InvOf s =
    Inv (primary_of s.panes) (reservation_key_at s.panes s.backends) s.pending_move_item_id
      s.index_by_id s.next_id s.items s.active s.reserved_destination_keys

-- The invariant, unless a null pane was dereferenced.
abbrev pub Safe : TransferManager → Type 0
Safe s = (s.crashed ≡ true) ⊎ InvOf s

abbrev pub StagedIn : TransferManager → TransferItem → Type 0
StagedIn s = Staged (primary_of s.panes) (reservation_key_at s.panes s.backends)

abbrev pub SoundIn : TransferManager → TransferItem → Type 0
SoundIn s = Sound (primary_of s.panes) (reservation_key_at s.panes s.backends)

abbrev pub HoldsIn : TransferManager → TransferItem → ActiveTransfer → Type 0
HoldsIn s = Holds (primary_of s.panes) (reservation_key_at s.panes s.backends)

pub required-needs :
    (s : TransferManager) (item : TransferItem)
    → required_backends_for_dispatch s item
      ≡ needs (primary_of s.panes) (reservation_key_at s.panes s.backends) item
unfolding required_backends_for_dispatch
required-needs s item = refl

-- Starting an item leaves what it needs covered, and captures the destination of a staged one.
pub started_item-Captured :
    (s : TransferManager) (item : TransferItem)
    → StagedIn s item
    → is_remote_to_remote item.direction ≡ true
    → (started_item s item).captured_dest_backend ≡ backend_of s (started_item s item).dest_pane
unfolding started_item
started_item-Captured s item g r = ground (arith, g r)

pub started_item-Staged :
    (s : TransferManager) (item : TransferItem) → StagedIn s item → StagedIn s (started_item s item)
unfolding started_item
started_item-Staged s item g r = inr (started_item-Captured s item g (ground arith))

pub required-started_item :
    (s : TransferManager) (item : TransferItem)
    → StagedIn s item
    → required_backends_for_dispatch s (started_item s item) ≡ required_backends_for_dispatch s item
unfolding started_item required_backends_for_dispatch
required-started_item s item g = ground arith

started_item-status :
    (s : TransferManager) (item : TransferItem)
    → (started_item s item).status ≡ TransferStatus.in_progress
unfolding started_item
started_item-status s item = ground arith

pub started_item-direction :
    (s : TransferManager) (item : TransferItem) → (started_item s item).direction ≡ item.direction
unfolding started_item
started_item-direction s item = ground arith

pub started_item-Sound :
    (s : TransferManager) (item : TransferItem) → StagedIn s item → SoundIn s (started_item s item)
started_item-Sound s item g =
    (started_item-Staged s item g, ground (arith, started_item-status s item))

-- An item that starts is held by its entry as before.
pub started_item-Holds :
    (s : TransferManager) (item : TransferItem) (a : ActiveTransfer)
    → StagedIn s item
    → is_move item.direction ≡ false
    → covers a.claimed_backends (required_backends_for_dispatch s item) ≡ true
    → HoldsIn s (started_item s item) a
started_item-Holds s item a g m c = record {
  unmoved = ap is_move (started_item-direction s item) ∙ m;
  live = rw (started_item-status s item);
  covered = covered';
  executing = ground (arith, started_item-status s item);
  captured = λ p r.
      started_item-Captured s item g
        (ap is_remote_to_remote (sym (started_item-direction s item)) ∙ r);
  keyed = λ p. absurd (ground (arith, started_item-status s item));
}
  where
    covered' :
        covers a.claimed_backends
          (needs (primary_of s.panes) (reservation_key_at s.panes s.backends) (started_item s item))
        ≡ true
    covered' =
        subst (λ rs. covers a.claimed_backends rs ≡ true)
          (sym (required-started_item s item g) ∙ required-needs s (started_item s item)) c

failed_dispatch_item-Sound :
    (s : TransferManager) (item : TransferItem)
    → SoundIn s item
    → SoundIn s (failed_dispatch_item item)
unfolding failed_dispatch_item
failed_dispatch_item-Sound s item g = ((λ r. ground (arith, g.0)), ground arith)

failed_dispatch_item-direction :
    (item : TransferItem) → (failed_dispatch_item item).direction ≡ item.direction
unfolding failed_dispatch_item
failed_dispatch_item-direction item = ground arith

-- What releaseActiveTransfer does for an entry that is there.
pub release_active_transfer_lem :
    (k : ℕ) (a : ActiveTransfer) (s : TransferManager)
    → get_elem? s.active k ≡ some a
    → release_active_transfer k s ≡ record s {
      active = remove_at k s.active;
      reserved_destination_keys = unreserve a.reserved_destination_key s.reserved_destination_keys;
    }
unfolding release_active_transfer
release_active_transfer_lem k a s at = rw (at, release_active_transfer)

-- An item that ends, with the entry that it leaves.
pub finish-Inv :
    (k i : ℕ) (item item' : TransferItem) (a : ActiveTransfer) (log : List Effect)
    (s : TransferManager)
    → InvOf s
    → get_elem? s.active k ≡ some a
    → a.item_index ≡ i
    → get_elem? s.items i ≡ some item
    → SoundIn s item'
    → item'.direction ≡ item.direction
    → InvOf (release_active_transfer k (record s { items = set s.items i item'; log = log }))
finish-Inv k i item item' a log s v at q e g d =
    subst InvOf
      (sym
        (release_active_transfer_lem k a (record s { items = set s.items i item'; log = log }) at))
      (Inv-finish _ _ _ _ _ k i item item' a v at q e g d)

-- Without a backend the item fails and its entry goes.
fail_dispatch-Inv :
    (i k : ℕ) (item : TransferItem) (a : ActiveTransfer) (s : TransferManager)
    → InvOf s
    → get_elem? s.active k ≡ some a
    → a.item_index ≡ i
    → get_elem? s.items i ≡ some item
    → InvOf (fail_dispatch i k item s)
unfolding fail_dispatch
fail_dispatch-Inv i k item a s v at q e =
    finish-Inv k i item (failed_dispatch_item item) a _ s v at q e
      (failed_dispatch_item-Sound s item (All-get _ s.items i item v.sound e))
      (failed_dispatch_item-direction item)

run_on-Inv :
    (b k i : ℕ) (item : TransferItem) (a : ActiveTransfer) (s : TransferManager)
    → InvOf s
    → get_elem? s.active k ≡ some a
    → a.item_index ≡ i
    → get_elem? s.items i ≡ some item
    → item.status ≡ TransferStatus.in_progress
    → InvOf (run_on b k a item (required_backends_for_dispatch s item) s)
unfolding run_on required_backends_for_dispatch
run_on-Inv b k i item a s v at q e st = Inv-run _ _ _ _ _ k i b item a v at q e st

execute-Safe :
    (again : TransferManager → TransferManager)
    → ((s : TransferManager) → InvOf s → Safe (again s))
    → (i k : ℕ) (a : ActiveTransfer) (item : TransferItem) (executor : Option ℕ)
      (s : TransferManager)
    → InvOf s
    → get_elem? s.active k ≡ some a
    → a.item_index ≡ i
    → get_elem? s.items i ≡ some item
    → item.status ≡ TransferStatus.in_progress
    → Safe (execute again i k a item executor s)
unfolding execute
execute-Safe again keep i k a item none s v at q e st =
    keep _ (fail_dispatch-Inv i k item a s v at q e)
execute-Safe again keep i k a item (some b) s v at q e st =
    inr (run_on-Inv b k i item a s v at q e st)

-- Dispatch, once the started item stands in the list beside its entry.
pub dispatch_entry-Safe :
    (again : TransferManager → TransferManager)
    → ((s : TransferManager) → InvOf s → Safe (again s))
    → (i k : ℕ) (a : ActiveTransfer) (item : TransferItem) (s : TransferManager)
    → get_elem? s.items i ≡ some item
    → get_elem? s.active k ≡ some a
    → a.item_index ≡ i
    → InvOf (record s { items = set s.items i (started_item s item) })
    → Safe (dispatch_entry again i k a item s)
unfolding dispatch_entry start_item
dispatch_entry-Safe again keep i k a item s e at q v =
    execute-Safe again keep i k a (started_item s item) _ (start_item i item s) v at q
      (get_elem?-set_self s.items i item (started_item s item) e) (started_item-status s item)

-- What dispatchActiveItem does for an item that has an entry.
pub dispatch_active_item_lem :
    (again : TransferManager → TransferManager) (i k : ℕ) (a : ActiveTransfer) (item : TransferItem)
    (s : TransferManager)
    → get_elem? s.items i ≡ some item
    → active_index_for_item s.active i ≡ some k
    → get_elem? s.active k ≡ some a
    → dispatch_active_item again i s ≡ dispatch_entry again i k a item s
unfolding dispatch_active_item
dispatch_active_item_lem again i k a item s e f at = rw (e, f, at, dispatch_active_item)

-- dispatchActiveItem, for an item that its entry holds.
pub dispatch_active_item-Safe :
    (again : TransferManager → TransferManager)
    → ((s : TransferManager) → InvOf s → Safe (again s))
    → (i : ℕ) (s : TransferManager) → InvOf s
    → Safe (dispatch_active_item again i s)
unfolding dispatch_active_item
dispatch_active_item-Safe again keep i s v =
    option-elim Safe (get_elem? s.items i) _ _ (λ _. inr v)
      (λ item e.
        option-elim Safe (active_index_for_item s.active i) _ _ (λ _. inr v)
          (λ k f.
            let (a, at, q) = active_index_found s.active i k f in
            let g = (All-get _ s.items i item v.sound e).0 in
            rw at (
              dispatch_entry-Safe again keep i k a item s e at q (
                Inv-set _ _ _ _ _ i item (started_item s item) v e (started_item-Sound s item g)
                  (started_item-direction s item)
                  (λ a' q' h.
                    started_item-Holds s item a' g h.unmoved (rw required-needs h.covered))))))
