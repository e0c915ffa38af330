-- ===== src/Queue/Claims/Binding.antt =====
-- startNext binds a connection of a pool to an item: the invariant does not see the pool.
use zephyrftp.Base.{
  ℕ, ◌≡◌, refl, sym, ap, Bool, true, false, ◌&&◌, not, [], Option, none, some, arith, ==_iff,
  if-elim, get_elem?, All-get, get_elem?-set_self,
}
use mathlib.Core.Path.{fun_ext, subst₂}
use zephyrftp.Base.Text.{Text}
use zephyrftp.Backends.Identity.{Backend, connection_identity}
use zephyrftp.Queue.Item.{TransferItem, TransferStatus}
use zephyrftp.Queue.Panes.{Pane, pick_idle_transfer_backend}
use zephyrftp.Queue.State.{TransferManager, set_pane, put}
use zephyrftp.Queue.Lookup.{
  primary_of, reservation_key_at, destination_reservation_key, required_backends_for_dispatch,
  any_busy, active_index_for_item, is_claimed, pool_pane_for_item,
}
use zephyrftp.Queue.Dispatch.{bind_picked, bind_from_pool, bind_backend, is_none}
use zephyrftp.Queue.Claims.Lists.{has_item}
use zephyrftp.Queue.Claims.Keys.{active_index_none}
use zephyrftp.Queue.Claims.Invariant.{Inv, Inv-set_absent}
use zephyrftp.Queue.Claims.Dispatching.{InvOf, SoundIn}

primary_of-set_pane :
    (panes : ℕ → Pane) (p : ℕ) (pane : Pane) (o : Option ℕ)
    → pane.backend ≡ (panes p).backend
    → primary_of (set_pane p pane panes) o ≡ primary_of panes o
primary_of-set_pane panes p pane none e = refl
primary_of-set_pane panes p pane (some q) e =
    ground (arith, ==_iff q p, λ (h : q ≡ p). ap (λ (r : ℕ). (panes r).backend) h)

key_at-set_pane :
    (panes : ℕ → Pane) (backends : ℕ → Backend) (p : ℕ) (pane : Pane) (o : Option ℕ) (path : Text)
    → pane.backend ≡ (panes p).backend
    → reservation_key_at (set_pane p pane panes) backends o path
      ≡ reservation_key_at panes backends o path
unfolding reservation_key_at
key_at-set_pane panes backends p pane none path e = refl
key_at-set_pane panes backends p pane (some q) path e =
    ap (λ o. reservation_key_of o) (primary_of-set_pane panes p pane (some q) e)
  where
    reservation_key_of : Option ℕ → Text
    reservation_key_of none = []
    reservation_key_of (some b) =
        destination_reservation_key (connection_identity (backends b)) path

-- Picking from a pool leaves the primary backend.
pick-backend :
    (is_claimed' : ℕ → Bool) (p : Pane)
    → (pick_idle_transfer_backend is_claimed' p).1.backend ≡ p.backend
unfolding pick_idle_transfer_backend
pick-backend is_claimed' p = ground arith

-- The invariant does not see a pane's pool.
pub InvOf-set_pane :
    (p : ℕ) (pane : Pane) (s : TransferManager)
    → pane.backend ≡ (s.panes p).backend
    → InvOf s
    → InvOf (record s { panes = set_pane p pane s.panes })
InvOf-set_pane p pane s e v =
    let first : primary_of (set_pane p pane s.panes) ≡ primary_of s.panes =
      fun_ext (λ o. primary_of-set_pane s.panes p pane o e) in
    let second : reservation_key_at (set_pane p pane s.panes) s.backends
        ≡ reservation_key_at s.panes s.backends =
      fun_ext (λ o. fun_ext (λ path. key_at-set_pane s.panes s.backends p pane o path e)) in
    subst₂
      (λ f g.
        Inv f g s.pending_move_item_id s.index_by_id s.next_id s.items s.active
          s.reserved_destination_keys)
      (sym first) (sym second) v

-- What visiting needs of the item at an index.
abbrev pub QueuedAt : ℕ → TransferManager → Type 0
QueuedAt i s =
    InvOf s
    × ((item : TransferItem) × (get_elem? s.items i ≡ some item)
        × (item.status ≡ TransferStatus.queued))

bound-Sound :
    (s : TransferManager) (item : TransferItem) (b : ℕ)
    → SoundIn s item
    → SoundIn s
        (record item { transfer_backend_captured = true; captured_transfer_backend = some b })
bound-Sound s item b g = g

bind_picked-QueuedAt :
    (i p : ℕ) (item : TransferItem) (r : Option ℕ × Pane) (s : TransferManager)
    → InvOf s
    → get_elem? s.items i ≡ some item
    → item.status ≡ TransferStatus.queued
    → has_item i s.active ≡ false
    → r.1.backend ≡ (s.panes p).backend
    → QueuedAt i (bind_picked i p item r s)
unfolding bind_picked
bind_picked-QueuedAt i p item (none, pane) s v e st free h = (v, (item, e, st))
bind_picked-QueuedAt i p item (some b, pane) s v e st free h =
    let item' = record item {
      transfer_backend_captured = true;
      captured_transfer_backend = some b;
    } in
    (
      InvOf-set_pane p pane (put i item' s) h (
          Inv-set_absent _ _ _ _ _ i item item' v e free
            (bound-Sound s item b (All-get _ s.items i item v.sound e)) refl),
      (item', get_elem?-set_self s.items i item item' e, st),
    )

bind_from_pool-QueuedAt :
    (i : ℕ) (item : TransferItem) (o : Option ℕ) (s : TransferManager)
    → InvOf s
    → get_elem? s.items i ≡ some item
    → item.status ≡ TransferStatus.queued
    → has_item i s.active ≡ false
    → QueuedAt i (bind_from_pool i item o s)
unfolding bind_from_pool
bind_from_pool-QueuedAt i item none s v e st free = (v, (item, e, st))
bind_from_pool-QueuedAt i item (some p) s v e st free =
    bind_picked-QueuedAt i p item (pick_idle_transfer_backend (is_claimed s.active) (s.panes p)) s v
      e st free (pick-backend (is_claimed s.active) (s.panes p))

pub bind_backend-QueuedAt :
    (i : ℕ) (item : TransferItem) (s : TransferManager)
    → InvOf s
    → get_elem? s.items i ≡ some item
    → item.status ≡ TransferStatus.queued
    → QueuedAt i (bind_backend i item s)
unfolding bind_backend
bind_backend-QueuedAt i item s v e st =
    if-elim (QueuedAt i)
      (any_busy s.active (required_backends_for_dispatch s item)
        && (not item.transfer_backend_captured && is_none (active_index_for_item s.active i)))
      _ _
      (λ h.
        bind_from_pool-QueuedAt i item (pool_pane_for_item item) s v e st
          (active_index_none s.active i (ground arith)))
      (λ _. (v, (item, e, st)))
