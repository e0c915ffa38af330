-- ===== src/Queue/Rows/Floor.antt =====
-- The scan floor of transfer/TransferManager.cpp: startNext begins its scan at m_scanFloor.
use zephyrftp.Base.{
  ℕ, zero, suc, ◌+◌, ◌-◌, ◌∙◌, ltb, Bool-cases, ◌<◌, ◌≤◌, ◌≡◌, refl, ap, false, List, [], ◌∷◌, some,
  inl, inr, arith, get_elem?, drop, length, length-set, length-append, get_elem?-set_cases,
  get_elem?-append_cases,
}
use zephyrftp.Base.Text.{Text}
use zephyrftp.Backends.Identity.{Backend}
use zephyrftp.Queue.Panes.{Pane}
use zephyrftp.Queue.Item.{TransferItem, is_queued}
use zephyrftp.Queue.State.{TransferManager}
use zephyrftp.Queue.Dispatch.{skip_resolved}
use zephyrftp.Queue.Events.{Reachable}
use zephyrftp.Queue.Rows.Closed.{Predicate, IsClosed}
use zephyrftp.Queue.Rows.Signals.{Reachable-IsAt}

-- The rows below the floor are not Queued, and the floor is in the queue.
abbrev pub IsFloored : Predicate
IsFloored items floor index next =
    (floor ≤ length items)
    × ((i : ℕ) (item : TransferItem)
        → get_elem? items i ≡ some item
        → i < floor
        → is_queued item.status ≡ false)

skip_resolved_bounds :
    (items : List TransferItem) (k : ℕ)
    → (k ≤ skip_resolved items k) × (skip_resolved items k ≤ k + length items)
unfolding skip_resolved
skip_resolved_bounds [] k = (omega arith, omega arith)
skip_resolved_bounds (x ∷ xs) k =
    let b = skip_resolved_bounds xs (suc k) in (ground (arith, b.0), ground (arith, b.1))

-- What the floor skips is not Queued.
skip_resolved_below :
    (items : List TransferItem) (k i : ℕ) (item : TransferItem)
    → get_elem? items i ≡ some item
    → k + i < skip_resolved items k
    → is_queued item.status ≡ false
unfolding skip_resolved
skip_resolved_below [] k i item e below = ground arith
skip_resolved_below (x ∷ xs) k zero item e below = ground arith
skip_resolved_below (x ∷ xs) k (suc i) item e below =
    ground (arith, skip_resolved_below xs (suc k) i item e)

length-drop : (n : ℕ) (xs : List TransferItem) → n ≤ length xs → n + length (drop n xs) ≡ length xs
length-drop zero xs l = omega arith
length-drop (suc n) [] l = omega arith
length-drop (suc n) (x ∷ xs) l = omega (arith, length-drop n xs (omega arith))

get_elem?-drop :
    (n : ℕ) (xs : List TransferItem) (i : ℕ)
    → n ≤ i
    → get_elem? (drop n xs) (i - n) ≡ get_elem? xs i
get_elem?-drop zero xs i l = ap (get_elem? xs) (omega arith)
get_elem?-drop (suc n) [] i l = refl
get_elem?-drop (suc n) (x ∷ xs) zero l = ground arith
get_elem?-drop (suc n) (x ∷ xs) (suc i) l =
    ap (get_elem? (drop n xs)) (omega arith) ∙ get_elem?-drop n xs i (omega arith)

advance_below :
    (items : List TransferItem) (floor : ℕ)
    → ((i : ℕ) (item : TransferItem)
        → get_elem? items i ≡ some item
        → i < floor
        → is_queued item.status ≡ false)
    → (i : ℕ) (item : TransferItem) → get_elem? items i ≡ some item
    → i < skip_resolved (drop floor items) floor
    → is_queued item.status ≡ false
advance_below items floor h i item e below = elim (Bool-cases (ltb i floor)) [
  | inl below_old ↦ h i item e (ground arith)
  | inr not_below ↦
      skip_resolved_below (drop floor items) floor (i - floor) item
        (get_elem?-drop floor items i (ground arith) ∙ e) (ground arith)
]

IsFloored-IsClosed : IsClosed IsFloored
IsFloored-IsClosed = record {
  change = λ items floor index next i item item' e same q (l, h). (
    rw (length-set items i item') l,
    λ j v f below. elim (get_elem?-set_cases items i j item' v f) [
      | inl (p, r) ↦ ground (arith, h i item e)
      | inr old ↦ h j v old below
    ],
  );
  requeue = λ items floor index next i item item' e same (l, h). (
    rw (length-set items i item') ground arith,
    λ j v f below. elim (get_elem?-set_cases items i j item' v f) [
      | inl (p, r) ↦ ground arith
      | inr old ↦ h j v old (ground arith)
    ],
  );
  lower = λ items floor index next i (l, h). (ground arith, λ j v f below. h j v f (ground arith));
  append = λ items floor index next item e (l, h). (
    rw (length-append items (item ∷ [])) omega arith,
    λ j v f below. elim (get_elem?-append_cases items j item v f) [
      | inl (p, r) ↦ ground arith
      | inr old ↦ h j v old below
    ],
  );
  skip_id = λ items floor index next h. h;
  advance = λ items floor index next (l, h). (
    omega (arith, (skip_resolved_bounds (drop floor items) floor).1, length-drop floor items l),
    advance_below items floor h,
  );
  reclaim = λ items floor index next p d (l, h). (omega arith, λ i item e below. ground arith);
}

-- In every state the queue reaches, the floor is in the queue and has no Queued row below it.
pub Reachable-IsFloored :
    (panes : ℕ → Pane) (backends : ℕ → Backend) (staging : Text) (s : TransferManager)
    → Reachable panes backends staging s
    → IsFloored s.items s.scan_floor s.index_by_id s.next_id
Reachable-IsFloored panes backends staging s =
    Reachable-IsAt IsFloored IsFloored-IsClosed panes backends staging s
      (ground arith, λ i item e l. ground arith)

-- In every state the queue reaches, no Queued row lies below the scan floor.
pub queued_at_or_above_floor :
    (panes : ℕ → Pane) (backends : ℕ → Backend) (staging : Text) (s : TransferManager)
    → Reachable panes backends staging s
    → (i : ℕ) (item : TransferItem) → get_elem? s.items i ≡ some item
    → i < s.scan_floor
    → is_queued item.status ≡ false
queued_at_or_above_floor panes backends staging s r =
    (Reachable-IsFloored panes backends staging s r).1
