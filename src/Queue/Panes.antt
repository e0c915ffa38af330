-- ===== src/Queue/Panes.antt =====
-- What the queue asks of a FilePaneWidget: its primary backend, its directory, its connection, and
-- its pool of extra connections (ui/FilePaneWidget.h and FilePaneWidget.cpp). A pane always has a
-- backend: its constructor sets one, and setBackend replaces it by another.
use zephyrftp.Base.{
  ℕ, ◌+◌, Bool, List, [], ◌∷◌, ◌++◌, Option, none, some, ltb, leb, if◌then◌else◌, length,
}
use zephyrftp.Base.Text.{Text}
use zephyrftp.Backends.Protocol.{ConnectionDescriptor}

-- The factory is what it will still deliver, in order; after that it fails (a null backend).
pub record Pane : Type 0 where
  pub backend : ℕ
  pub current_directory : Text
  pub connection_descriptor : ConnectionDescriptor
  pub pool_backends : List ℕ
  pub max_pool_size : ℕ
  pub pool_factory : Option (List ℕ)

-- hasTransferPool
unfoldable pub has_transfer_pool : Pane → Bool
has_transfer_pool p = ltb 1 p.max_pool_size

-- The first backend of the pool that is not claimed.
unfoldable pub first_idle : (ℕ → Bool) → List ℕ → Option ℕ
first_idle is_claimed [] = none
first_idle is_claimed (b ∷ bs) =
    let rest = first_idle is_claimed bs in if is_claimed b then rest else some b

-- What the factory builds, and what is left of it.
unfoldable pub build : Option (List ℕ) → Option (ℕ × List ℕ)
build none = none
build (some []) = none
build (some (b ∷ bs)) = some (b, bs)

-- The pool grows by one backend if it is not full and the factory delivers one.
unfoldable pub grow_pool : Pane → Option ℕ × Pane
unfolding build
grow_pool p =
    if leb p.max_pool_size (1 + length p.pool_backends)
    then (none, p)
    else elim (build p.pool_factory) [
      | none ↦ (none, p)
      | some (b, bs) ↦
          (some b, record p { pool_backends = p.pool_backends ++ b ∷ []; pool_factory = some bs })
    ]

-- pickIdleTransferBackend: the primary, else an idle pool member, else a new one.
unfoldable pub pick_idle_transfer_backend : (ℕ → Bool) → Pane → Option ℕ × Pane
unfolding first_idle grow_pool
pick_idle_transfer_backend is_claimed p =
    if is_claimed p.backend
    then elim (first_idle is_claimed p.pool_backends) [ none ↦ grow_pool p | some b ↦ (some b, p) ]
    else (some p.backend, p)
