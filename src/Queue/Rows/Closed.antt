-- ===== src/Queue/Rows/Closed.antt =====
-- The changes that the operations of transfer/TransferManager.cpp make to m_items, m_scanFloor,
-- m_indexById and m_nextId. A predicate that these changes keep is kept by the operations.
use zephyrftp.Base.{
  ℕ, suc, ◌≡◌, true, not, ◌||◌, List, [], ◌∷◌, ◌++◌, some, get_elem?, set, drop, length,
}
use zephyrftp.Base.Maps.{insert}
use zephyrftp.Backends.Protocol.{ConnectionDescriptor}
use zephyrftp.Queue.Item.{TransferItem, is_queued}
use zephyrftp.Queue.State.{TransferManager}
use zephyrftp.Queue.Dispatch.{skip_resolved}
use zephyrftp.Queue.Controls.{lowered}
use zephyrftp.Queue.Persist.{reclaim_items}

-- A predicate of the rows, the floor, the index and the next id.
abbrev pub Predicate : Type 1
Predicate = List TransferItem → ℕ → List (ℕ × ℕ) → ℕ → Type 0

abbrev pub IsAt : Predicate → TransferManager → Type 0
IsAt P s = P s.items s.scan_floor s.index_by_id s.next_id

pub record IsClosed (P : Predicate) : Type 0 where
  -- a row changes under its id, and is not Queued unless it was
  pub change :
      (items : List TransferItem) (floor : ℕ) (index : List (ℕ × ℕ)) (next i : ℕ)
      (item item' : TransferItem)
      → get_elem? items i ≡ some item
      → item'.id ≡ item.id
      → (not (is_queued item'.status) || is_queued item.status) ≡ true
      → P items floor index next
      → P (set items i item') floor index next
  -- a row returns to the queue, and the floor comes down to it
  pub requeue :
      (items : List TransferItem) (floor : ℕ) (index : List (ℕ × ℕ)) (next i : ℕ)
      (item item' : TransferItem)
      → get_elem? items i ≡ some item
      → item'.id ≡ item.id
      → P items floor index next
      → P (set items i item') (lowered i floor) index next
  pub lower :
      (items : List TransferItem) (floor : ℕ) (index : List (ℕ × ℕ)) (next i : ℕ)
      → P items floor index next
      → P items (lowered i floor) index next
  -- a row is appended under the next id
  pub append :
      (items : List TransferItem) (floor : ℕ) (index : List (ℕ × ℕ)) (next : ℕ)
      (item : TransferItem)
      → item.id ≡ next
      → P items floor index next
      → P (items ++ item ∷ []) floor (insert item.id (length items) index) (suc next)
  pub skip_id :
      (items : List TransferItem) (floor : ℕ) (index : List (ℕ × ℕ)) (next : ℕ)
      → P items floor index next
      → P items floor index (suc next)
  -- the floor moves past the rows that are not Queued
  pub advance :
      (items : List TransferItem) (floor : ℕ) (index : List (ℕ × ℕ)) (next : ℕ)
      → P items floor index next
      → P items (skip_resolved (drop floor items) floor) index next
  pub reclaim :
      (items : List TransferItem) (floor : ℕ) (index : List (ℕ × ℕ)) (next p : ℕ)
      (d : ConnectionDescriptor)
      → P items floor index next
      → P (reclaim_items p d items) 0 index next
