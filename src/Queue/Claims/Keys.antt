-- ===== src/Queue/Claims/Keys.antt =====
-- Entries about distinct items, with distinct reservations, under the changes of m_active.
use zephyrftp.Base.{
  ℕ, zero, suc, ◌≡◌, refl, true, false, ◌||◌, List, [], ◌∷◌, ◌++◌, none, some, arith, ◌==◌,
  get_elem?, set, remove_at,
}
use zephyrftp.Base.Text.{Text, text_eq, text_eq_iff, text_eq_refl, is_empty}
use zephyrftp.Queue.State.{ActiveTransfer}
use zephyrftp.Queue.Lookup.{active_index_for_item, has_key, drop_key}
use zephyrftp.Queue.Claims.Lists.{has_item, DistinctItems, holds_key, is_free_key, DistinctKeys}

has_item-append :
    (as' : List ActiveTransfer) (a : ActiveTransfer) (i : ℕ)
    → has_item i (as' ++ a ∷ []) ≡ (has_item i as' || a.item_index == i)
unfolding has_item
has_item-append [] a i = ground arith
has_item-append (x ∷ as') a i = ground (arith, has_item-append as' a i)

pub DistinctItems-append :
    (as' : List ActiveTransfer) (a : ActiveTransfer)
    → DistinctItems as'
    → has_item a.item_index as' ≡ false
    → DistinctItems (as' ++ a ∷ [])
unfolding has_item
DistinctItems-append [] a d h = (refl, tt)
DistinctItems-append (x ∷ as') a d h = (
  ground (arith, has_item-append as' a x.item_index),
  DistinctItems-append as' a d.1 (ground arith),
)

has_item-set :
    (as' : List ActiveTransfer) (k i : ℕ) (a a' : ActiveTransfer)
    → get_elem? as' k ≡ some a
    → a'.item_index ≡ a.item_index
    → has_item i (set as' k a') ≡ has_item i as'
unfolding has_item
has_item-set [] k i a a' e s = refl
has_item-set (x ∷ as') zero i a a' e s = ground arith
has_item-set (x ∷ as') (suc k) i a a' e s = ground (arith, has_item-set as' k i a a' e s)

pub DistinctItems-set :
    (as' : List ActiveTransfer) (k : ℕ) (a a' : ActiveTransfer)
    → DistinctItems as'
    → get_elem? as' k ≡ some a
    → a'.item_index ≡ a.item_index
    → DistinctItems (set as' k a')
DistinctItems-set [] k a a' d e s = tt
DistinctItems-set (x ∷ as') zero a a' d e s = ground arith
DistinctItems-set (x ∷ as') (suc k) a a' d e s =
    (ground (arith, has_item-set as' k x.item_index a a' e s), DistinctItems-set as' k a a' d.1 e s)

pub has_item_get :
    (as' : List ActiveTransfer) (k : ℕ) (a : ActiveTransfer)
    → get_elem? as' k ≡ some a
    → has_item a.item_index as' ≡ true
unfolding has_item
has_item_get [] k a e = ground arith
has_item_get (x ∷ as') zero a e = ground arith
has_item_get (x ∷ as') (suc k) a e = ground (arith, has_item_get as' k a e)

has_item-remove :
    (as' : List ActiveTransfer) (k i : ℕ)
    → has_item i as' ≡ false
    → has_item i (remove_at k as') ≡ false
unfolding has_item
has_item-remove [] k i h = h
has_item-remove (x ∷ as') zero i h = ground arith
has_item-remove (x ∷ as') (suc k) i h = ground (arith, has_item-remove as' k i)

pub DistinctItems-remove :
    (as' : List ActiveTransfer) (k : ℕ) → DistinctItems as' → DistinctItems (remove_at k as')
DistinctItems-remove [] k d = tt
DistinctItems-remove (x ∷ as') zero d = d.1
DistinctItems-remove (x ∷ as') (suc k) d =
    (has_item-remove as' k x.item_index d.0, DistinctItems-remove as' k d.1)

-- With its entry gone, an item is in no other.
pub has_item_removed :
    (as' : List ActiveTransfer) (k : ℕ) (a : ActiveTransfer)
    → DistinctItems as'
    → get_elem? as' k ≡ some a
    → has_item a.item_index (remove_at k as') ≡ false
unfolding has_item
has_item_removed [] k a d e = ground arith
has_item_removed (x ∷ as') zero a d e = ground arith
has_item_removed (x ∷ as') (suc k) a d e =
    ground (arith, has_item_removed as' k a d.1 e, has_item_get as' k a e)

-- What activeIndexForItem finds.
pub active_index_found :
    (as' : List ActiveTransfer) (i k : ℕ)
    → active_index_for_item as' i ≡ some k
    → (a : ActiveTransfer) × (get_elem? as' k ≡ some a) × (a.item_index ≡ i)
unfolding active_index_for_item
active_index_found [] i k e = absurd (ground arith)
active_index_found (x ∷ as') i zero e = (x, refl, ground arith)
active_index_found (x ∷ as') i (suc k) e = active_index_found as' i k (ground arith)

pub active_index_none :
    (as' : List ActiveTransfer) (i : ℕ)
    → active_index_for_item as' i ≡ none
    → has_item i as' ≡ false
unfolding active_index_for_item has_item
active_index_none [] i e = refl
active_index_none (x ∷ as') i e = ground (arith, active_index_none as' i)

pub active_index_absent :
    (as' : List ActiveTransfer) (i : ℕ)
    → has_item i as' ≡ false
    → active_index_for_item as' i ≡ none
unfolding active_index_for_item has_item
active_index_absent [] i e = refl
active_index_absent (x ∷ as') i e = ground (arith, active_index_absent as' i)

holds_key-append :
    (as' : List ActiveTransfer) (a : ActiveTransfer) (k : Text)
    → holds_key k (as' ++ a ∷ []) ≡ (holds_key k as' || text_eq a.reserved_destination_key k)
unfolding holds_key
holds_key-append [] a k = ground arith
holds_key-append (x ∷ as') a k = ground (arith, holds_key-append as' a k)

pub DistinctKeys-append :
    (as' : List ActiveTransfer) (a : ActiveTransfer)
    → DistinctKeys as'
    → is_free_key a.reserved_destination_key as' ≡ true
    → DistinctKeys (as' ++ a ∷ [])
unfolding holds_key
DistinctKeys-append [] a d h = (ground arith, tt)
DistinctKeys-append (x ∷ as') a d h = (
  ground (
    arith,
    holds_key-append as' a x.reserved_destination_key,
    text_eq_iff a.reserved_destination_key x.reserved_destination_key,
    text_eq_refl x.reserved_destination_key,
  ),
  DistinctKeys-append as' a d.1 (ground arith),
)

holds_key-set :
    (as' : List ActiveTransfer) (k : ℕ) (key : Text) (a a' : ActiveTransfer)
    → get_elem? as' k ≡ some a
    → a'.reserved_destination_key ≡ a.reserved_destination_key
    → holds_key key (set as' k a') ≡ holds_key key as'
unfolding holds_key
holds_key-set [] k key a a' e s = refl
holds_key-set (x ∷ as') zero key a a' e s = ground arith
holds_key-set (x ∷ as') (suc k) key a a' e s = ground (arith, holds_key-set as' k key a a' e s)

pub DistinctKeys-set :
    (as' : List ActiveTransfer) (k : ℕ) (a a' : ActiveTransfer)
    → DistinctKeys as'
    → get_elem? as' k ≡ some a
    → a'.reserved_destination_key ≡ a.reserved_destination_key
    → DistinctKeys (set as' k a')
DistinctKeys-set [] k a a' d e s = tt
DistinctKeys-set (x ∷ as') zero a a' d e s = ground arith
DistinctKeys-set (x ∷ as') (suc k) a a' d e s = (
  ground (arith, holds_key-set as' k x.reserved_destination_key a a' e s),
  DistinctKeys-set as' k a a' d.1 e s,
)

holds_key-remove :
    (as' : List ActiveTransfer) (k : ℕ) (key : Text)
    → holds_key key as' ≡ false
    → holds_key key (remove_at k as') ≡ false
unfolding holds_key
holds_key-remove [] k key h = h
holds_key-remove (x ∷ as') zero key h = ground arith
holds_key-remove (x ∷ as') (suc k) key h = ground (arith, holds_key-remove as' k key)

pub DistinctKeys-remove :
    (as' : List ActiveTransfer) (k : ℕ) → DistinctKeys as' → DistinctKeys (remove_at k as')
DistinctKeys-remove [] k d = tt
DistinctKeys-remove (x ∷ as') zero d = d.1
DistinctKeys-remove (x ∷ as') (suc k) d = (
  ground (arith, holds_key-remove as' k x.reserved_destination_key),
  DistinctKeys-remove as' k d.1,
)

pub holds_key_get :
    (as' : List ActiveTransfer) (k : ℕ) (a : ActiveTransfer)
    → get_elem? as' k ≡ some a
    → holds_key a.reserved_destination_key as' ≡ true
unfolding holds_key
holds_key_get [] k a e = ground arith
holds_key_get (x ∷ as') zero a e = ground (arith, text_eq_refl a.reserved_destination_key)
holds_key_get (x ∷ as') (suc k) a e = ground (arith, holds_key_get as' k a e)

-- A key that was dropped leaves the others.
pub has_key-drop_key :
    (key other : Text) (ks : List Text)
    → text_eq key other ≡ false
    → has_key other (drop_key key ks) ≡ has_key other ks
unfolding has_key drop_key
has_key-drop_key key other [] h = refl
has_key-drop_key key other (k ∷ ks) h =
    ground (arith, has_key-drop_key key other ks h, text_eq_iff k key, text_eq_iff k other)

-- With its entry gone, a key is held by no other.
pub holds_key_removed :
    (as' : List ActiveTransfer) (k : ℕ) (a : ActiveTransfer)
    → DistinctKeys as'
    → get_elem? as' k ≡ some a
    → is_empty a.reserved_destination_key ≡ false
    → holds_key a.reserved_destination_key (remove_at k as') ≡ false
unfolding holds_key
holds_key_removed [] k a d e n = ground arith
holds_key_removed (x ∷ as') zero a d e n = ground arith
holds_key_removed (x ∷ as') (suc k) a d e n = ground (
  arith,
  holds_key_removed as' k a d.1 e n,
  holds_key_get as' k a e,
  text_eq_iff x.reserved_destination_key a.reserved_destination_key,
)
