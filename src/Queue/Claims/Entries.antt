-- ===== src/Queue/Claims/Entries.antt =====
-- The invariant when an entry joins m_active, starts to run, or leaves.
use zephyrftp.Base.{
  ℕ, zero, suc, ◌≡◌, refl, subst, true, false, ◌||◌, not, List, [], ◌∷◌, ◌++◌, Option, some, arith,
  get_elem?, set, remove_at, All, All-append, All-get, All-set, if◌then◌else◌, get_elem?-set_self,
}
use zephyrftp.Base.Text.{Text, text_eq_iff, text_eq_refl, is_empty}
use zephyrftp.Queue.Item.{TransferItem, TransferStatus}
use zephyrftp.Queue.State.{ActiveTransfer}
use zephyrftp.Queue.Lookup.{any_busy, has_key, drop_key}
use zephyrftp.Queue.Claims.Lists.{
  covers_self, any_busy_sound, Exclusive-append, Exclusive-set, Exclusive-remove, has_item,
  holds_key,
}
use zephyrftp.Queue.Claims.Keys.{
  DistinctItems-append, DistinctItems-set, DistinctItems-remove, DistinctKeys-append,
  DistinctKeys-set, DistinctKeys-remove, has_item_removed, holds_key_removed, has_key-drop_key,
}
use zephyrftp.Queue.Claims.Moves.{Moving-set}
use zephyrftp.Queue.Claims.Invariant.{
  is_reserved, needs, Sound, Holds, Inv, Owned-item, Owned-set_absent,
}

-- the reservations after a claim, and after a release
abbrev pub reserve : Text → List Text → List Text
reserve key res = if is_empty key then res else key ∷ res

abbrev pub unreserve : Text → List Text → List Text
unreserve key res = if is_empty key then res else drop_key key res

All-remove {ℓ κ} :
    {A : Type ℓ} (P : A → Type κ) (xs : List A) (k : ℕ) → All P xs → All P (remove_at k xs)
All-remove P [] k h = tt
All-remove P (x ∷ xs) zero h = h.1
All-remove P (x ∷ xs) (suc k) h = (h.0, All-remove P xs k h.1)

held-drop :
    (act : List ActiveTransfer) (res : List Text) (key : Text)
    → All (λ a. is_reserved res a.reserved_destination_key ≡ true) act
    → holds_key key act ≡ false
    → All (λ a. is_reserved (drop_key key res) a.reserved_destination_key ≡ true) act
unfolding holds_key
held-drop [] res key h f = tt
held-drop (a ∷ act) res key h f = (
  ground (
    arith,
    h.0,
    has_key-drop_key key a.reserved_destination_key res,
    text_eq_iff key a.reserved_destination_key,
    text_eq_iff a.reserved_destination_key key,
  ),
  held-drop act res key h.1 (ground arith),
)

-- A key that is not reserved is held by no entry.
free_of_unreserved :
    (act : List ActiveTransfer) (res : List Text) (key : Text)
    → All (λ a. is_reserved res a.reserved_destination_key ≡ true) act
    → is_reserved res key ≡ false
    → holds_key key act ≡ false
unfolding holds_key
free_of_unreserved [] res key h f = refl
free_of_unreserved (a ∷ act) res key h f =
    ground
      (arith, free_of_unreserved act res key h.1 f, text_eq_iff a.reserved_destination_key key, h.0)

held-more :
    (act : List ActiveTransfer) (res : List Text) (key : Text)
    → All (λ a. is_reserved res a.reserved_destination_key ≡ true) act
    → All (λ a. is_reserved (key ∷ res) a.reserved_destination_key ≡ true) act
unfolding has_key
held-more [] res key h = tt
held-more (a ∷ act) res key h = (ground (arith, h.0), held-more act res key h.1)

reserved_self : (key : Text) (res : List Text) → is_reserved (reserve key res) key ≡ true
unfolding has_key
reserved_self [] res = refl
reserved_self (c ∷ key) res = ground (arith, text_eq_refl (c ∷ key))

held-reserve :
    (act : List ActiveTransfer) (res : List Text) (key : Text)
    → All (λ a. is_reserved res a.reserved_destination_key ≡ true) act
    → All (λ a. is_reserved (reserve key res) a.reserved_destination_key ≡ true) act
held-reserve act res [] h = h
held-reserve act res (c ∷ key) h = held-more act res (c ∷ key) h

held-unreserve :
    (act : List ActiveTransfer) (res : List Text) (key : Text)
    → All (λ a. is_reserved res a.reserved_destination_key ≡ true) act
    → (is_empty key ≡ false → holds_key key act ≡ false)
    → All (λ a. is_reserved (unreserve key res) a.reserved_destination_key ≡ true) act
held-unreserve act res [] h f = h
held-unreserve act res (c ∷ key) h f = held-drop act res (c ∷ key) h (f refl)

module _ (primary : Option ℕ → Option ℕ) (key_of : Option ℕ → Text → Text)
    (pending index : List (ℕ × ℕ)) (next : ℕ) where
  -- An entry joins, for an item that was in none, with backends that were free and a destination
  -- that was not reserved.
  pub Inv-claim :
      {items : List TransferItem} {act : List ActiveTransfer} {res : List Text} (i : ℕ)
      (item item' : TransferItem) (a : ActiveTransfer)
      → Inv primary key_of pending index next items act res
      → get_elem? items i ≡ some item
      → a.item_index ≡ i
      → has_item i act ≡ false
      → any_busy act a.claimed_backends ≡ false
      → (is_empty a.reserved_destination_key || not (has_key a.reserved_destination_key res)) ≡ true
      → Sound primary key_of item'
      → item'.direction ≡ item.direction
      → Holds primary key_of item' a
      → Inv primary key_of pending index next
          (set items i item')
          (act ++ a ∷ [])
          (reserve a.reserved_destination_key res)
  Inv-claim {items} {act} {res} i item item' a v e q fresh idle open' g d h = record {
    exclusive =
        Exclusive-append act a v.exclusive (λ b c. any_busy_sound act a.claimed_backends b idle c);
    distinct_items = DistinctItems-append act a v.distinct_items (rw q fresh);
    distinct_keys =
        DistinctKeys-append act a v.distinct_keys
          (ground (arith, free_of_unreserved act res a.reserved_destination_key v.held));
    held =
        All-append _ act (a ∷ []) (held-reserve act res a.reserved_destination_key v.held)
          (reserved_self a.reserved_destination_key res, tt);
    owned =
        All-append _ act (a ∷ [])
          (Owned-set_absent primary key_of items act i item item' e v.owned fresh)
          ((item', rw q (get_elem?-set_self items i item item' e), h), tt);
    sound = All-set (Sound primary key_of) items i item' v.sound g;
    moving = Moving-set index next items i item item' e d pending v.moving;
  }

  -- An entry starts to run: it claims what its item needs now.
  pub Inv-run :
      {items : List TransferItem} {act : List ActiveTransfer} {res : List Text} (k i b : ℕ)
      (item : TransferItem) (a : ActiveTransfer)
      → Inv primary key_of pending index next items act res
      → get_elem? act k ≡ some a
      → a.item_index ≡ i
      → get_elem? items i ≡ some item
      → item.status ≡ TransferStatus.in_progress
      → Inv primary key_of pending index next items
          (set act k
            (record a { claimed_backends = needs primary key_of item; current_executor = some b }))
          res
  Inv-run {items} {act} {res} k i b item a v at q e st =
      let h = Owned-item primary key_of items a i item (All-get _ act k a v.owned at) q e in
      record {
        exclusive = Exclusive-set act k a _ v.exclusive at h.covered;
        distinct_items = DistinctItems-set act k a _ v.distinct_items at refl;
        distinct_keys = DistinctKeys-set act k a _ v.distinct_keys at refl;
        held = All-set _ act k _ v.held (All-get _ act k a v.held at);
        owned = All-set _ act k _ v.owned (
          item,
          rw q e,
          (record {
            live = h.live;
            covered = covers_self (needs primary key_of item);
            unmoved = h.unmoved;
            executing = rw st;
            captured = h.captured;
            keyed = h.keyed;
          }),
        );
        sound = v.sound;
        moving = v.moving;
      }

  -- An entry leaves, and its item becomes what it ended as.
  pub Inv-finish :
      {items : List TransferItem} {act : List ActiveTransfer} {res : List Text} (k i : ℕ)
      (item item' : TransferItem) (a : ActiveTransfer)
      → Inv primary key_of pending index next items act res
      → get_elem? act k ≡ some a
      → a.item_index ≡ i
      → get_elem? items i ≡ some item
      → Sound primary key_of item'
      → item'.direction ≡ item.direction
      → Inv primary key_of pending index next
          (set items i item')
          (remove_at k act)
          (unreserve a.reserved_destination_key res)
  Inv-finish {items} {act} {res} k i item item' a v at q e g d = record {
    exclusive = Exclusive-remove act k v.exclusive;
    distinct_items = DistinctItems-remove act k v.distinct_items;
    distinct_keys = DistinctKeys-remove act k v.distinct_keys;
    held =
        held-unreserve (remove_at k act) res a.reserved_destination_key (All-remove _ act k v.held)
          (holds_key_removed act k a v.distinct_keys at);
    owned =
        Owned-set_absent primary key_of items (remove_at k act) i item item' e
          (All-remove _ act k v.owned)
          (subst (λ j. has_item j (remove_at k act) ≡ false) q
            (has_item_removed act k a v.distinct_items at));
    sound = All-set (Sound primary key_of) items i item' v.sound g;
    moving = Moving-set index next items i item item' e d pending v.moving;
  }
