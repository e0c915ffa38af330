-- ===== src/Folders/Enumerator.antt =====
-- transfer/FolderEnumerator.h and FolderEnumerator.cpp. The counter of request ids is shared by all
-- enumerators of the program: here it is a field, as one enumerator sees it.
use zephyrftp.Base.{
  ℕ, suc, Bool, true, false, List, [], ◌∷◌, ◌++◌, Option, none, some, ◌==◌, if◌then◌else◌, length,
}
use zephyrftp.Base.Text.{Text, codes}
use zephyrftp.Paths.{join_path}
use zephyrftp.Backends.Entry.{RemoteEntry, EnumeratedItem}

-- A directory that is still to be listed.
pub record PendingDir : Type 0 where
  pub absolute_path : Text
  pub relative_prefix : Text

-- The calls and the signals of an enumerator.
pub data Output : Type 0 where
  list_directory : Text → ℕ → Output
  items_discovered : ℕ → Output
  finished : List EnumeratedItem → Output
  failed : Text → Output

pub record FolderEnumerator : Type 0 where
  pub root_path : Text
  pub root_name : Text
  pub pending : List PendingDir
  pub active_dir : PendingDir
  pub active_request_id : Option ℕ
  pub next_request_id : ℕ
  pub results : List EnumeratedItem
  -- what was called and emitted, newest first
  pub output : List Output

-- The constructor: no request is awaited yet (m_activeRequestId is -1).
unfoldable pub new_enumerator : Text → Text → ℕ → FolderEnumerator
new_enumerator root_path root_name next = record {
  root_path = root_path;
  root_name = root_name;
  pending = [];
  active_dir = record { absolute_path = []; relative_prefix = [] };
  active_request_id = none;
  next_request_id = next;
  results = [];
  output = [];
}

-- enumerateNext
unfoldable pub enumerate_next : FolderEnumerator → FolderEnumerator
enumerate_next s = elim s.pending [
  | [] ↦ record s { output = finished s.results ∷ s.output }
  | d ∷ ds ↦ record s {
    pending = ds;
    active_dir = d;
    active_request_id = some s.next_request_id;
    next_request_id = suc s.next_request_id;
    output = list_directory d.absolute_path s.next_request_id ∷ s.output;
  }
]

-- the first result: the folder itself
unfoldable pub root_item : Text → EnumeratedItem
root_item name = record { relative_path = name; is_dir = true; size = 0; modified = none }

-- start
unfoldable pub start : FolderEnumerator → FolderEnumerator
unfolding enumerate_next root_item
start s = enumerate_next (record s {
  results = s.results ++ root_item s.root_name ∷ [];
  pending =
      s.pending ++ (record { absolute_path = s.root_path; relative_prefix = s.root_name }) ∷ [];
})

unfoldable pub found_item : PendingDir → RemoteEntry → EnumeratedItem
found_item dir e = record {
  relative_path = join_path dir.relative_prefix e.name;
  is_dir = e.is_dir;
  size = e.size;
  modified = e.modified;
}

-- the directory of an entry, where it is one
unfoldable pub found_dir : PendingDir → RemoteEntry → List PendingDir
found_dir dir e =
    if e.is_dir
    then (record {
      absolute_path = join_path dir.absolute_path e.name;
      relative_prefix = join_path dir.relative_prefix e.name;
    })
      ∷ []
    else []

-- The entries of the active directory are taken up, in order.
unfoldable pub take_entries : List RemoteEntry → FolderEnumerator → FolderEnumerator
unfolding found_item found_dir
take_entries [] s = s
take_entries (e ∷ es) s = take_entries es (record s {
  results = s.results ++ found_item s.active_dir e ∷ [];
  pending = s.pending ++ found_dir s.active_dir e;
})

-- whether a reply is the one that is awaited
abbrev pub is_awaited : ℕ → Option ℕ → Bool
is_awaited id none = false
is_awaited id (some active) = id == active

-- onDirectoryEnumerated
unfoldable pub on_directory_enumerated : List RemoteEntry → ℕ → FolderEnumerator → FolderEnumerator
unfolding take_entries enumerate_next
on_directory_enumerated entries id s =
    let s' = take_entries entries s in
    if is_awaited id s.active_request_id
    then enumerate_next (record s' { output = items_discovered (length s'.results) ∷ s'.output })
    else s

-- onEnumerationFailed: the path and the reason, as `%1: %2`
unfoldable pub on_enumeration_failed : Text → Text → ℕ → FolderEnumerator → FolderEnumerator
on_enumeration_failed path reason id s =
    if is_awaited id s.active_request_id
    then record s { output = failed (path ++ (codes ": " ++ reason)) ∷ s.output }
    else s

-- What happens to an enumerator that was started: replies, in any order.
pub data Reply : Type 0 where
  listed : List RemoteEntry → ℕ → Reply
  refused : Text → Text → ℕ → Reply

unfoldable pub reply : Reply → FolderEnumerator → FolderEnumerator
reply (listed entries id) s = on_directory_enumerated entries id s
reply (refused path reason id) s = on_enumeration_failed path reason id s

pub data Reached (root_path root_name : Text) (next : ℕ) : FolderEnumerator → Type 0 where
  started : Reached root_path root_name next (start (new_enumerator root_path root_name next))
  replied :
      (r : Reply) (s : FolderEnumerator)
      → Reached root_path root_name next s
      → Reached root_path root_name next (reply r s)
