-- ===== src/Queue/Rows/Ids.antt =====
-- The ids of the rows of transfer/TransferManager.cpp: m_indexById finds a row under its id.
use zephyrftp.Base.{
  ℕ, zero, suc, ◌<◌, ◌≡◌, refl, List, [], ◌∷◌, some, inl, inr, arith, get_elem?, length,
  get_elem?-set_cases, get_elem?-append_cases,
}
use zephyrftp.Base.Text.{Text}
use zephyrftp.Base.Maps.{lookup, lookup-insert}
use zephyrftp.Backends.Protocol.{ConnectionDescriptor}
use zephyrftp.Backends.Identity.{Backend}
use zephyrftp.Queue.Panes.{Pane}
use zephyrftp.Queue.Item.{TransferItem}
use zephyrftp.Queue.State.{TransferManager}
use zephyrftp.Queue.Lookup.{index_of_id}
use zephyrftp.Queue.Persist.{reclaimed_item, reclaim_one, item_or, reclaim_items}
use zephyrftp.Queue.Events.{Reachable}
use zephyrftp.Queue.Rows.Closed.{Predicate, IsClosed}
use zephyrftp.Queue.Rows.Signals.{Reachable-IsAt}

-- The index finds each row under its id, and the next id is a new one.
abbrev IsIndexed : Predicate
IsIndexed items floor index next =
    (i : ℕ) (item : TransferItem)
    → get_elem? items i ≡ some item
    → (lookup item.id index ≡ some i) × (item.id < next)

reclaim_one_id :
    (p : ℕ) (d : ConnectionDescriptor) (item : TransferItem)
    → (item_or item (reclaim_one p d item)).id ≡ item.id
unfolding reclaim_one reclaimed_item
reclaim_one_id p d item = ground arith

reclaim_items_row :
    (p : ℕ) (d : ConnectionDescriptor) (items : List TransferItem) (i : ℕ) (item' : TransferItem)
    → get_elem? (reclaim_items p d items) i ≡ some item'
    → (item : TransferItem) × (get_elem? items i ≡ some item) × (item.id ≡ item'.id)
unfolding reclaim_items
reclaim_items_row p d [] i item' e = ground arith
reclaim_items_row p d (x ∷ xs) zero item' e = (x, refl, ground (arith, reclaim_one_id p d x))
reclaim_items_row p d (x ∷ xs) (suc i) item' e = reclaim_items_row p d xs i item' e

IsIndexed-IsClosed : IsClosed IsIndexed
IsIndexed-IsClosed = record {
  change = λ items floor index next i item item' e same q h. λ j v f.
      elim (get_elem?-set_cases items i j item' v f) [
        | inl (p, r) ↦ ground (arith, h i item e)
        | inr old ↦ h j v old
      ];
  requeue = λ items floor index next i item item' e same h. λ j v f.
      elim (get_elem?-set_cases items i j item' v f) [
        | inl (p, r) ↦ ground (arith, h i item e)
        | inr old ↦ h j v old
      ];
  lower = λ items floor index next i h. h;
  append = λ items floor index next item e h. λ j v f.
      elim (get_elem?-append_cases items j item v f) [
        | inl (p, r) ↦ ground (arith, lookup-insert item.id v.id (length items) index)
        | inr old ↦ ground (arith, lookup-insert item.id v.id (length items) index, h j v old)
      ];
  skip_id = λ items floor index next h. λ j v f. ((h j v f).0, omega (arith, (h j v f).1));
  advance = λ items floor index next h. h;
  reclaim = λ items floor index next p d h. λ j v f.
      let (item, at, same) = reclaim_items_row p d items j v f in ground (arith, h j item at);
}

-- In every state the queue reaches, the id of a row is one that was given out, and looking it up
-- gives that row's index.
pub row_found_by_id :
    (panes : ℕ → Pane) (backends : ℕ → Backend) (staging : Text) (s : TransferManager)
    → Reachable panes backends staging s
    → (i : ℕ) (item : TransferItem) → get_elem? s.items i ≡ some item
    → (index_of_id s item.id ≡ some i) × (item.id < s.next_id)
unfolding index_of_id
row_found_by_id panes backends staging s r =
    Reachable-IsAt IsIndexed IsIndexed-IsClosed panes backends staging s (λ i item e. ground arith)
      r
