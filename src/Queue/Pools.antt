-- ===== src/Queue/Pools.antt =====
-- What FilePaneWidget::pickIdleTransferBackend (ui/FilePaneWidget.cpp) gives to the queue.
use zephyrftp.Base.{
  ℕ, ◌+◌, ◌≤◌, ◌≡◌, refl, Bool, true, false, ◌||◌, List, [], ◌∷◌, ◌++◌, Option, none, some, ◌⊎◌,
  inl, inr, arith, Bool-cases, Option-cases, leb, ◌==◌, length, exists, All, length-append,
}
use zephyrftp.Queue.Panes.{Pane, first_idle, build, grow_pool, pick_idle_transfer_backend}

-- the backends that the factory will still deliver are new
abbrev pub IsFresh : (ℕ → Bool) → Option (List ℕ) → Type 0
IsFresh is_claimed none = Unit
IsFresh is_claimed (some bs) = All (λ b. is_claimed b ≡ false) bs

first_idle_free :
    (is_claimed : ℕ → Bool) (bs : List ℕ) (b : ℕ)
    → first_idle is_claimed bs ≡ some b
    → (is_claimed b ≡ false) × (exists (λ x. x == b) bs ≡ true)
unfolding first_idle
first_idle_free is_claimed [] b e = absurd (ground arith)
first_idle_free is_claimed (x ∷ bs) b e = elim (Bool-cases (is_claimed x)) [
  | inl busy ↦
      let (free, member) = first_idle_free is_claimed bs b (ground arith) in (free, ground arith)
  | inr idle ↦ (ground arith, ground arith)
]

first_idle-none :
    (is_claimed : ℕ → Bool) (bs : List ℕ)
    → first_idle is_claimed bs ≡ none
    → All (λ b. is_claimed b ≡ true) bs
unfolding first_idle
first_idle-none is_claimed [] e = tt
first_idle-none is_claimed (x ∷ bs) e = (ground arith, first_idle-none is_claimed bs (ground arith))

exists_last : (bs : List ℕ) (b : ℕ) → exists (λ x. x == b) (bs ++ b ∷ []) ≡ true
exists_last [] b = ground arith
exists_last (x ∷ bs) b = ground (arith, exists_last bs b)

-- What a pick may answer for a pane: a free connection of the pane within its limit; or none, where
-- all that the pane has are claimed and it can grow no more.
abbrev pub IsPick : (ℕ → Bool) → Pane → Option ℕ × Pane → Type 0
IsPick is_claimed p (some b, p') =
    (is_claimed b ≡ false)
    × ((p'.backend == b || exists (λ x. x == b) p'.pool_backends) ≡ true)
    × (1 + length p'.pool_backends ≤ p'.max_pool_size)
    × (p'.backend ≡ p.backend)
IsPick is_claimed p (none, p') =
    (is_claimed p.backend ≡ true)
    × All (λ b. is_claimed b ≡ true) p.pool_backends
    × ((p.max_pool_size ≤ 1 + length p.pool_backends) ⊎ (build p.pool_factory ≡ none))
    × (p' ≡ p)

build_fresh :
    (is_claimed : ℕ → Bool) (f : Option (List ℕ)) (b : ℕ) (bs : List ℕ)
    → IsFresh is_claimed f
    → build f ≡ some (b, bs)
    → is_claimed b ≡ false
unfolding build
build_fresh is_claimed none b bs h e = absurd (ground arith)
build_fresh is_claimed (some []) b bs h e = absurd (ground arith)
build_fresh is_claimed (some (x ∷ xs)) b bs h e = ground (arith, h.0)

grow_pool-IsPick :
    (is_claimed : ℕ → Bool) (p : Pane)
    → is_claimed p.backend ≡ true
    → All (λ b. is_claimed b ≡ true) p.pool_backends
    → IsFresh is_claimed p.pool_factory
    → IsPick is_claimed p (grow_pool p)
unfolding grow_pool
grow_pool-IsPick is_claimed p busy all fresh =
    elim (Bool-cases (leb p.max_pool_size (1 + length p.pool_backends))) [
      | inl full ↦ rw (full, grow_pool) (busy, all, inl (ground arith), refl)
      | inr room ↦ elim (Option-cases (build p.pool_factory)) [
        | inl n ↦ rw (room, n, grow_pool) (busy, all, inr n, refl)
        | inr ((b, bs), e) ↦
            rw (room, e, grow_pool)
              (
                build_fresh is_claimed p.pool_factory b bs fresh e,
                ground (arith, exists_last p.pool_backends b),
                ground (arith, length-append p.pool_backends (b ∷ [])),
                refl,
              )
      ]
    ]

-- A pick gives a connection that nobody has claimed, the pane's own or one of its pool, which stays
-- within the pane's limit; or it gives none, where every connection of the pane is claimed and the
-- pool is full or cannot be extended. (The factory builds connections that nobody has claimed, and
-- the pool was within the limit before.)
pub pick_idle_transfer_backend_lem :
    (is_claimed : ℕ → Bool) (p : Pane)
    → IsFresh is_claimed p.pool_factory
    → 1 + length p.pool_backends ≤ p.max_pool_size
    → IsPick is_claimed p (pick_idle_transfer_backend is_claimed p)
unfolding pick_idle_transfer_backend
pick_idle_transfer_backend_lem is_claimed p fresh bound = elim (Bool-cases (is_claimed p.backend)) [
  | inr free ↦ rw (free, pick_idle_transfer_backend) (free, ground arith, bound, refl)
  | inl busy ↦ elim (Option-cases (first_idle is_claimed p.pool_backends)) [
    | inl n ↦
        rw (busy, n, pick_idle_transfer_backend)
          (grow_pool-IsPick is_claimed p busy (first_idle-none is_claimed p.pool_backends n) fresh)
    | inr (b, e) ↦
        let (free, member) = first_idle_free is_claimed p.pool_backends b e in
        rw (busy, e, pick_idle_transfer_backend) (free, ground (arith, member), bound, refl)
  ]
]
