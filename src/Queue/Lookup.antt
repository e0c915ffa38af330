-- ===== src/Queue/Lookup.antt =====
-- The queries of transfer/TransferManager.cpp: which backends an item needs, and what is claimed.
use zephyrftp.Base.{
  ℕ, Bool, true, false, ◌||◌, List, [], ◌∷◌, ◌++◌, Option, none, some, ◌==◌, if◌then◌else◌,
  find_index, remove_at, get_elem?,
}
use zephyrftp.Base.Text.{Text, text_eq, is_empty, codes, show_ℕ}
use zephyrftp.Base.Maps.{lookup}
use zephyrftp.Paths.{file_name}
use zephyrftp.Backends.Identity.{Backend, connection_identity}
use zephyrftp.Queue.Item.{TransferItem, TransferDirection, TransferPhase, is_remote_to_remote}
use zephyrftp.Queue.Panes.{Pane}
use zephyrftp.Queue.State.{TransferManager, ActiveTransfer, Effect, remove_temp_file}

-- `pane ? pane->backend() : nullptr`
abbrev pub primary_of : (ℕ → Pane) → Option ℕ → Option ℕ
primary_of panes none = none
primary_of panes (some p) = some (panes p).backend

abbrev pub backend_of : TransferManager → Option ℕ → Option ℕ
backend_of s = primary_of s.panes

-- appends a pointer that is not null
abbrev pub add_if : Option ℕ → List (Option ℕ)
add_if none = []
add_if (some b) = some b ∷ []

-- operator== on pointers
abbrev pub same_pointer : Option ℕ → Option ℕ → Bool
same_pointer none none = true
same_pointer none (some b) = false
same_pointer (some a) none = false
same_pointer (some a) (some b) = a == b

-- the destination of a staged transfer, unless it is null or the source
abbrev pub add_other : Option ℕ → Option ℕ → List (Option ℕ)
add_other src none = []
add_other src (some b) = if same_pointer (some b) src then [] else some b ∷ []

-- The captured pool member, once there is one, else the pane's primary backend.
abbrev pub bound_or : TransferItem → Option ℕ → List (Option ℕ)
bound_or item primary =
    if item.transfer_backend_captured then item.captured_transfer_backend ∷ [] else add_if primary

-- The cases of requiredBackendsForDispatch, with the two primary backends.
unfoldable pub required_by :
    TransferDirection → TransferItem → Option ℕ → Option ℕ → List (Option ℕ)
required_by TransferDirection.local_to_remote item src dst = bound_or item dst
required_by TransferDirection.local_to_local item src dst = bound_or item dst
required_by TransferDirection.edit_upload item src dst = bound_or item dst
required_by TransferDirection.remote_to_local item src dst = bound_or item src
required_by TransferDirection.edit_download item src dst = bound_or item src
required_by TransferDirection.remote_to_remote item src dst = elim item.phase [
  | TransferPhase.downloading ↦ add_if src ++ add_other src dst
  | _ ↦ add_if item.captured_dest_backend
]
required_by TransferDirection.move item src dst = []
required_by TransferDirection.unsupported item src dst = []

-- requiredBackendsForDispatch
unfoldable pub required_backends_for_dispatch : TransferManager → TransferItem → List (Option ℕ)
unfolding required_by
required_backends_for_dispatch s item =
    required_by item.direction item (backend_of s item.source_pane) (backend_of s item.dest_pane)

-- poolPaneForItem
unfoldable pub pool_pane_by : TransferDirection → TransferItem → Option ℕ
pool_pane_by TransferDirection.local_to_remote item = item.dest_pane
pool_pane_by TransferDirection.local_to_local item = item.dest_pane
pool_pane_by TransferDirection.edit_upload item = item.dest_pane
pool_pane_by TransferDirection.remote_to_local item = item.source_pane
pool_pane_by TransferDirection.edit_download item = item.source_pane
pool_pane_by _ item = none

abbrev pub pool_pane_for_item : TransferItem → Option ℕ
pool_pane_for_item item = pool_pane_by item.direction item

-- `claimedBackends.contains(backend)`
unfoldable pub claims : ℕ → List (Option ℕ) → Bool
claims b [] = false
claims b (c ∷ cs) = same_pointer c (some b) || claims b cs

-- isBackendClaimed, for a backend that is not null and for any pointer
unfoldable pub is_claimed : List ActiveTransfer → ℕ → Bool
is_claimed [] b = false
is_claimed (a ∷ as') b = claims b a.claimed_backends || is_claimed as' b

abbrev pub is_backend_claimed : List ActiveTransfer → Option ℕ → Bool
is_backend_claimed as' none = false
is_backend_claimed as' (some b) = is_claimed as' b

-- whether one of the backends is claimed
unfoldable pub any_busy : List ActiveTransfer → List (Option ℕ) → Bool
any_busy as' [] = false
any_busy as' (r ∷ rs) = is_backend_claimed as' r || any_busy as' rs

-- activeIndexForExecutor
unfoldable pub active_index_for_executor : List ActiveTransfer → ℕ → Option ℕ
active_index_for_executor as' b = find_index (λ a. same_pointer a.current_executor (some b)) as'

-- activeIndexForItem
unfoldable pub active_index_for_item : List ActiveTransfer → ℕ → Option ℕ
active_index_for_item as' i = find_index (λ a. a.item_index == i) as'

-- `m_reservedDestinationKeys.contains(key)`
unfoldable pub has_key : Text → List Text → Bool
has_key key [] = false
has_key key (k ∷ ks) = text_eq k key || has_key key ks

-- `m_reservedDestinationKeys.remove(key)`
unfoldable pub drop_key : Text → List Text → List Text
drop_key key [] = []
drop_key key (k ∷ ks) = let rest = drop_key key ks in if text_eq k key then rest else k ∷ rest

-- destinationReservationKey
unfoldable pub destination_reservation_key : Text → Text → Text
destination_reservation_key identity dest_path = identity ++ (b'\n' ∷ dest_path)

-- The key of an item with a destination pane; empty for one without.
unfoldable pub reservation_key_at : (ℕ → Pane) → (ℕ → Backend) → Option ℕ → Text → Text
unfolding destination_reservation_key
reservation_key_at panes backends none path = []
reservation_key_at panes backends (some p) path =
    destination_reservation_key (connection_identity (backends (panes p).backend)) path

abbrev pub reservation_key : TransferManager → TransferItem → Text
reservation_key s item = reservation_key_at s.panes s.backends item.dest_pane item.dest_path

-- releaseActiveTransfer: the entry and its reservation go together.
unfoldable pub release_active_transfer : ℕ → TransferManager → TransferManager
release_active_transfer k s = elim (get_elem? s.active k) [
  | none ↦ s
  | some a ↦ record s {
    active = remove_at k s.active;
    reserved_destination_keys =
        (if is_empty a.reserved_destination_key
          then s.reserved_destination_keys
          else drop_key a.reserved_destination_key s.reserved_destination_keys);
  }
]

-- indexById
unfoldable pub index_of_id : TransferManager → ℕ → Option ℕ
index_of_id s id = lookup id s.index_by_id

-- allocateTempFilePath and its two variants, which differ in a prefix
unfoldable pub temp_file_path_with : Text → TransferManager → ℕ → Text → Text
temp_file_path_with prefix s id name =
    s.staging_dir ++ (b'/' ∷ (prefix ++ (show_ℕ id ++ (b'_' ∷ file_name name))))

abbrev pub allocate_temp_file_path : TransferManager → TransferItem → Text
allocate_temp_file_path s item = temp_file_path_with [] s item.id item.file_name

abbrev pub allocate_edit_temp_file_path : TransferManager → TransferItem → Text
allocate_edit_temp_file_path s item = temp_file_path_with (codes "edit_") s item.id item.file_name

abbrev pub allocate_verification_temp_file_path : TransferManager → TransferItem → Text
allocate_verification_temp_file_path s item =
    temp_file_path_with (codes "verify_") s item.id item.file_name

-- cleanupTempFile: the item afterwards, and what is removed
unfoldable pub cleaned_item : TransferItem → TransferItem
cleaned_item item =
    if is_remote_to_remote item.direction then record item { temp_file_path = [] } else item

unfoldable pub cleanup_effects : TransferItem → List Effect
cleanup_effects item =
    if is_remote_to_remote item.direction
    then if is_empty item.temp_file_path then [] else remove_temp_file item.temp_file_path ∷ []
    else []
