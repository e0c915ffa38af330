-- ===== src/Queue/Claims/Lists.antt =====
-- Lists of entries of which no two share a backend, an item or a destination.
use zephyrftp.Base.{
  ℕ, zero, suc, ◌≡◌, refl, Bool, true, false, ◌||◌, ◌&&◌, not, List, [], ◌∷◌, ◌++◌, Option, none,
  some, arith, ◌==◌, get_elem?, set, remove_at,
}
use zephyrftp.Base.Text.{Text, text_eq, is_empty}
use zephyrftp.Queue.State.{ActiveTransfer}
use zephyrftp.Queue.Lookup.{claims, is_claimed, any_busy}

-- whether every backend of the second list stands in the first
unfoldable pub covers : List (Option ℕ) → List (Option ℕ) → Bool
covers cs [] = true
covers cs (none ∷ rs) = covers cs rs
covers cs (some b ∷ rs) = claims b cs && covers cs rs

pub covers_sound :
    (cs rs : List (Option ℕ)) (b : ℕ)
    → covers cs rs ≡ true
    → claims b rs ≡ true
    → claims b cs ≡ true
unfolding covers claims
covers_sound cs [] b h e = cc
covers_sound cs (none ∷ rs) b h e = covers_sound cs rs b h e
covers_sound cs (some r ∷ rs) b h e = ground (arith, covers_sound cs rs b)

covers_weaken :
    (c : Option ℕ) (cs rs : List (Option ℕ)) → covers cs rs ≡ true → covers (c ∷ cs) rs ≡ true
unfolding covers claims
covers_weaken c cs [] h = refl
covers_weaken c cs (none ∷ rs) h = covers_weaken c cs rs h
covers_weaken c cs (some r ∷ rs) h = ground (arith, covers_weaken c cs rs)

pub covers_self : (rs : List (Option ℕ)) → covers rs rs ≡ true
unfolding covers claims
covers_self [] = refl
covers_self (none ∷ rs) = covers_weaken none rs rs (covers_self rs)
covers_self (some r ∷ rs) = ground (arith, covers_weaken (some r) rs rs (covers_self rs))

-- What is not busy is claimed by nobody.
pub any_busy_sound :
    (as' : List ActiveTransfer) (rs : List (Option ℕ)) (b : ℕ)
    → any_busy as' rs ≡ false
    → claims b rs ≡ true
    → is_claimed as' b ≡ false
unfolding any_busy claims
any_busy_sound as' [] b h e = cc
any_busy_sound as' (none ∷ rs) b h e = any_busy_sound as' rs b h e
any_busy_sound as' (some r ∷ rs) b h e = ground (arith, any_busy_sound as' rs b)

-- No backend of the entry is claimed by the others.
abbrev pub Alone : ActiveTransfer → List ActiveTransfer → Type 0
Alone a as' = (b : ℕ) → claims b a.claimed_backends ≡ true → is_claimed as' b ≡ false

abbrev pub Exclusive : List ActiveTransfer → Type 0
Exclusive [] = Unit
Exclusive (a ∷ as') = Alone a as' × Exclusive as'

-- whether an entry is about an item
unfoldable pub has_item : ℕ → List ActiveTransfer → Bool
has_item i [] = false
has_item i (a ∷ as') = a.item_index == i || has_item i as'

abbrev pub DistinctItems : List ActiveTransfer → Type 0
DistinctItems [] = Unit
DistinctItems (a ∷ as') = (has_item a.item_index as' ≡ false) × DistinctItems as'

-- whether an entry holds a key
unfoldable pub holds_key : Text → List ActiveTransfer → Bool
holds_key k [] = false
holds_key k (a ∷ as') = text_eq a.reserved_destination_key k || holds_key k as'

-- An empty key reserves nothing.
abbrev pub is_free_key : Text → List ActiveTransfer → Bool
is_free_key k as' = is_empty k || not (holds_key k as')

abbrev pub DistinctKeys : List ActiveTransfer → Type 0
DistinctKeys [] = Unit
DistinctKeys (a ∷ as') = (is_free_key a.reserved_destination_key as' ≡ true) × DistinctKeys as'

is_claimed-append :
    (as' : List ActiveTransfer) (a : ActiveTransfer) (b : ℕ)
    → is_claimed (as' ++ a ∷ []) b ≡ (is_claimed as' b || claims b a.claimed_backends)
unfolding is_claimed
is_claimed-append [] a b = ground arith
is_claimed-append (x ∷ as') a b = ground (arith, is_claimed-append as' a b)

pub Exclusive-append :
    (as' : List ActiveTransfer) (a : ActiveTransfer)
    → Exclusive as'
    → Alone a as'
    → Exclusive (as' ++ a ∷ [])
unfolding is_claimed
Exclusive-append [] a x alone = ((λ b h. refl), tt)
Exclusive-append (c ∷ as') a x alone = (
  (λ b h. ground (arith, is_claimed-append as' a b, x.0 b h, alone b)),
  Exclusive-append as' a x.1 (λ b h. ground (arith, alone b h)),
)

-- A backend that an entry claims is claimed.
pub is_claimed_get :
    (as' : List ActiveTransfer) (k : ℕ) (a : ActiveTransfer) (b : ℕ)
    → get_elem? as' k ≡ some a
    → claims b a.claimed_backends ≡ true
    → is_claimed as' b ≡ true
unfolding is_claimed
is_claimed_get [] k a b e h = ground arith
is_claimed_get (x ∷ as') zero a b e h = ground arith
is_claimed_get (x ∷ as') (suc k) a b e h = ground (arith, is_claimed_get as' k a b e h)

-- An entry that claims no more than before leaves nothing new claimed.
is_claimed-set :
    (as' : List ActiveTransfer) (k : ℕ) (a a' : ActiveTransfer) (b : ℕ)
    → get_elem? as' k ≡ some a
    → covers a.claimed_backends a'.claimed_backends ≡ true
    → is_claimed as' b ≡ false
    → is_claimed (set as' k a') b ≡ false
unfolding is_claimed
is_claimed-set [] k a a' b e h f = f
is_claimed-set (x ∷ as') zero a a' b e h f =
    ground (arith, covers_sound a.claimed_backends a'.claimed_backends b h)
is_claimed-set (x ∷ as') (suc k) a a' b e h f = ground (arith, is_claimed-set as' k a a' b e h)

pub Exclusive-set :
    (as' : List ActiveTransfer) (k : ℕ) (a a' : ActiveTransfer)
    → Exclusive as'
    → get_elem? as' k ≡ some a
    → covers a.claimed_backends a'.claimed_backends ≡ true
    → Exclusive (set as' k a')
Exclusive-set [] k a a' x e h = tt
Exclusive-set (y ∷ as') zero a a' x e h = (
  (λ b c. x.0 b (ground (arith, covers_sound a.claimed_backends a'.claimed_backends b h c))),
  x.1,
)
Exclusive-set (y ∷ as') (suc k) a a' x e h =
    ((λ b c. is_claimed-set as' k a a' b e h (x.0 b c)), Exclusive-set as' k a a' x.1 e h)

is_claimed-remove :
    (as' : List ActiveTransfer) (k : ℕ) (b : ℕ)
    → is_claimed as' b ≡ false
    → is_claimed (remove_at k as') b ≡ false
unfolding is_claimed
is_claimed-remove [] k b f = f
is_claimed-remove (x ∷ as') zero b f = ground arith
is_claimed-remove (x ∷ as') (suc k) b f = ground (arith, is_claimed-remove as' k b)

pub Exclusive-remove :
    (as' : List ActiveTransfer) (k : ℕ) → Exclusive as' → Exclusive (remove_at k as')
Exclusive-remove [] k x = tt
Exclusive-remove (y ∷ as') zero x = x.1
Exclusive-remove (y ∷ as') (suc k) x =
    ((λ b c. is_claimed-remove as' k b (x.0 b c)), Exclusive-remove as' k x.1)
