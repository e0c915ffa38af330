-- ===== src/Queue/Claims/Signalled.antt =====
-- What the slots for the signals of the backends make of an item, and of its entry.
use zephyrftp.Base.{
  ℕ, zero, suc, ◌≡◌, refl, sym, subst, Bool, true, false, List, [], ◌∷◌, ◌++◌, Option, none, some,
  inl, inr, arith, Option-cases, get_elem?, set, All-get,
}
use zephyrftp.Base.Text.{Text}
use zephyrftp.Queue.Item.{
  TransferItem, is_move, is_in_progress, is_remote_to_remote, is_downloading,
}
use zephyrftp.Queue.State.{TransferManager, ActiveTransfer}
use zephyrftp.Queue.Lookup.{
  primary_of, reservation_key_at, active_index_for_executor, add_if, add_other, required_by, claims,
  cleaned_item,
}
use zephyrftp.Queue.Dispatch.{is_none}
use zephyrftp.Queue.Signals.{
  with_executor, progressed_item, progress_entry, staged_item, finished_item, failed_item,
  paused_item,
}
use zephyrftp.Queue.Claims.Lists.{covers}
use zephyrftp.Queue.Claims.Invariant.{needs, Inv-set, Owned-item}
use zephyrftp.Queue.Claims.Dispatching.{InvOf, Safe, SoundIn, HoldsIn}
use zephyrftp.Queue.Claims.Adding.{KeepsSafe}
use zephyrftp.Queue.Claims.Cancelling.{Safe-step}

executor_found :
    (as' : List ActiveTransfer) (b k : ℕ)
    → active_index_for_executor as' b ≡ some k
    → (a : ActiveTransfer) × (get_elem? as' k ≡ some a) × (is_none a.current_executor ≡ false)
unfolding active_index_for_executor
executor_found [] b k e = absurd (ground arith)
executor_found (x ∷ as') b zero e = (x, refl, ground (arith, Option-cases x.current_executor))
executor_found (x ∷ as') b (suc k) e = executor_found as' b k (ground arith)

-- A handler is safe if it is so for the entry that executes on the sender, and its item.
pub with_executor-KeepsSafe :
    (b : ℕ) (handler : ℕ → ActiveTransfer → TransferItem → TransferManager → TransferManager)
    → ((k : ℕ) (a : ActiveTransfer) (item : TransferItem) (s : TransferManager)
        → Safe s
        → get_elem? s.active k ≡ some a
        → is_none a.current_executor ≡ false
        → get_elem? s.items a.item_index ≡ some item
        → Safe (handler k a item s))
    → KeepsSafe (with_executor b handler)
unfolding with_executor
with_executor-KeepsSafe b handler f s h =
    elim (Option-cases (active_index_for_executor s.active b)) [
      | inl n ↦ rw (n, with_executor) h
      | inr (k, e) ↦
          let (a, at, x) = executor_found s.active b k e in
          elim (Option-cases (get_elem? s.items a.item_index)) [
            | inl n ↦ rw (e, at, n, with_executor) h
            | inr (item, g) ↦ rw (e, at, g, with_executor) (f k a item s h at x g)
          ]
    ]

progressed_item-needs :
    (primary : Option ℕ → Option ℕ) (key_of : Option ℕ → Text → Text) (done total : ℕ)
    (sample : Option ℕ) (item : TransferItem)
    → needs primary key_of (progressed_item done total sample item) ≡ needs primary key_of item
unfolding progressed_item required_by
progressed_item-needs primary key_of done total sample item = ground arith

progressed_item-Holds :
    (done total : ℕ) (sample : Option ℕ) (s : TransferManager) (item : TransferItem)
    (a : ActiveTransfer)
    → HoldsIn s item a
    → HoldsIn s (progressed_item done total sample item) a
unfolding progressed_item
progressed_item-Holds done total sample s item a h = record {
  live = h.live;
  covered =
      subst (λ rs. covers a.claimed_backends rs ≡ true)
        (sym (
          progressed_item-needs (primary_of s.panes) (reservation_key_at s.panes s.backends) done
            total sample item))
        h.covered;
  unmoved = h.unmoved;
  executing = h.executing;
  captured = h.captured;
  keyed = h.keyed;
}

pub progress_entry-Safe :
    (done total : ℕ) (sample : Option ℕ) (k : ℕ) (a : ActiveTransfer) (item : TransferItem)
    (s : TransferManager)
    → Safe s
    → get_elem? s.active k ≡ some a
    → get_elem? s.items a.item_index ≡ some item
    → Safe (progress_entry done total sample k a item s)
unfolding progress_entry progressed_item
progress_entry-Safe done total sample k a item s h at e =
    Safe-step s
      (record s { items = set s.items a.item_index (progressed_item done total sample item) }) refl
      (λ v.
        Inv-set _ _ _ _ _ a.item_index item (progressed_item done total sample item) v e
          (All-get _ s.items a.item_index item v.sound e) refl
          (λ a' q g. progressed_item-Holds done total sample s item a' g))
      h

-- Whoever holds what the first phase of a staged transfer needs holds its destination.
covers_dest :
    (cs : List (Option ℕ)) (src dst : Option ℕ)
    → covers cs (add_if src ++ add_other src dst) ≡ true
    → covers cs (add_if dst) ≡ true
unfolding covers claims
covers_dest cs src none h = refl
covers_dest cs none (some d) h = h
covers_dest cs (some c) (some d) h = ground arith

-- The second phase of a staged transfer needs no more than the first.
staged_item-Holds :
    (s : TransferManager) (item : TransferItem) (a : ActiveTransfer)
    → is_remote_to_remote item.direction ≡ true
    → is_downloading item.phase ≡ true
    → is_in_progress item.status ≡ true
    → HoldsIn s item a
    → HoldsIn s (staged_item item) a
unfolding staged_item required_by
staged_item-Holds s item a r d running h =
    let to_dest : item.captured_dest_backend ≡ primary_of s.panes item.dest_pane =
      h.captured running r in
    record {
      live = h.live;
      covered = ground (
        arith,
        to_dest,
        h.covered,
        covers_dest a.claimed_backends (primary_of s.panes item.source_pane)
            (primary_of s.panes item.dest_pane),
      );
      unmoved = h.unmoved;
      executing = h.executing;
      captured = h.captured;
      keyed = h.keyed;
    }

-- An item whose entry executes is in progress.
pub running_item :
    (s : TransferManager) (k : ℕ) (a : ActiveTransfer) (item : TransferItem)
    → InvOf s
    → get_elem? s.active k ≡ some a
    → is_none a.current_executor ≡ false
    → get_elem? s.items a.item_index ≡ some item
    → (is_in_progress item.status ≡ true) × HoldsIn s item a
running_item s k a item v at x e =
    let h = Owned-item _ _ s.items a a.item_index item (All-get _ s.active k a v.owned at) refl e in
    (ground (arith, h.executing), h)

staged_item-Sound :
    (s : TransferManager) (item : TransferItem)
    → is_remote_to_remote item.direction ≡ true
    → item.captured_dest_backend ≡ primary_of s.panes item.dest_pane
    → SoundIn s (staged_item item)
unfolding staged_item
staged_item-Sound s item r c = ((λ _. inr c), ground arith)

pub stage-Inv :
    (s : TransferManager) (k : ℕ) (a : ActiveTransfer) (item : TransferItem)
    → InvOf s
    → get_elem? s.active k ≡ some a
    → is_none a.current_executor ≡ false
    → get_elem? s.items a.item_index ≡ some item
    → is_remote_to_remote item.direction ≡ true
    → is_downloading item.phase ≡ true
    → InvOf (record s { items = set s.items a.item_index (staged_item item) })
stage-Inv s k a item v at x e r d =
    let (running, h) = running_item s k a item v at x e in
    Inv-set _ _ _ _ _ a.item_index item (staged_item item) v e
      (staged_item-Sound s item r (h.captured running r)) (unfold staged_item in refl)
      (λ a' q g. staged_item-Holds s item a' r d running g)

pub finished_item-Sound :
    (s : TransferManager) (item : TransferItem) → SoundIn s item → SoundIn s (finished_item item)
unfolding finished_item cleaned_item
finished_item-Sound s item g = ((λ r. ground (arith, g.0)), ground arith)

pub finished_item-direction :
    (item : TransferItem) → (finished_item item).direction ≡ item.direction
unfolding finished_item cleaned_item
finished_item-direction item = ground arith

pub failed_item-Sound :
    (s : TransferManager) (cancelled : Bool) (reason : Text) (item : TransferItem)
    → SoundIn s item
    → SoundIn s (failed_item cancelled reason item)
unfolding failed_item cleaned_item
failed_item-Sound s cancelled reason item g = ((λ r. ground (arith, g.0)), ground arith)

pub failed_item-direction :
    (cancelled : Bool) (reason : Text) (item : TransferItem)
    → (failed_item cancelled reason item).direction ≡ item.direction
unfolding failed_item cleaned_item
failed_item-direction cancelled reason item = ground arith

pub paused_item-Sound :
    (s : TransferManager) (done : ℕ) (item : TransferItem)
    → is_move item.direction ≡ false
    → SoundIn s item
    → SoundIn s (paused_item done item)
unfolding paused_item
paused_item-Sound s done item m g = (g.0, ground arith)

pub paused_item-direction :
    (done : ℕ) (item : TransferItem) → (paused_item done item).direction ≡ item.direction
unfolding paused_item
paused_item-direction done item = refl
