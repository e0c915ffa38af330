-- ===== src/Compare/Sync.antt =====
-- compare/CompareSyncExecutor.h and CompareSyncExecutor.cpp, between the two panes of the window.
use zephyrftp.Base.{
  ℕ, ◌+◌, Bool, true, false, ◌&&◌, ◌||◌, not, List, [], ◌∷◌, ◌++◌, map, ◌==◌, ltb, if◌then◌else◌,
}
use zephyrftp.Base.Text.{Text}
use zephyrftp.Paths.{join_path, slash}
use zephyrftp.Queue.State.{TransferManager, create_directory, emit}
use zephyrftp.Queue.Enqueue.{enqueue, directory_of}
use zephyrftp.Compare.Comparer.{
  CompareStatus, CompareEntry, only_left, only_right, differs, identical,
}

pub data Side : Type 0 where
  left right : Side

-- The status of an entry that a side alone has.
unfoldable pub only_on : Side → CompareStatus
only_on left = only_left
only_on right = only_right

-- operator== on CompareStatus
unfoldable pub status_eq : CompareStatus → CompareStatus → Bool
status_eq only_left only_left = true
status_eq only_right only_right = true
status_eq differs differs = true
status_eq identical identical = true
status_eq _ _ = false

unfoldable pub copy_directories : Side → ℕ → List CompareEntry → TransferManager → TransferManager
unfolding only_on status_eq
copy_directories source dest [] s = s
copy_directories source dest (e ∷ es) s = copy_directories source dest es (
    if e.is_dir && status_eq e.status (only_on source)
    then emit
        (create_directory (s.panes dest).backend (join_path (directory_of s dest) e.relative_path)
          false)
        s
    else s)

unfoldable pub copy_files : Side → ℕ → ℕ → List CompareEntry → TransferManager → TransferManager
unfolding only_on status_eq
copy_files side source dest [] s = s
copy_files side source dest (e ∷ es) s = copy_files side source dest es (
    if not e.is_dir && (status_eq e.status (only_on side) || status_eq e.status differs)
    then enqueue source dest e.relative_path (status_eq e.status differs) s
    else s)

-- copySelected, from the side that is copied: the directories first, then the files
unfoldable pub copy_selected : Side → ℕ → ℕ → List CompareEntry → TransferManager → TransferManager
unfolding copy_directories copy_files
copy_selected side source dest selected s =
    copy_files side source dest selected (copy_directories side dest selected s)

-- The files and the directories that a side alone has.
unfoldable pub extra_files : Side → List CompareEntry → List CompareEntry
unfolding only_on status_eq
extra_files side [] = []
extra_files side (e ∷ es) =
    let rest = extra_files side es in
    if status_eq e.status (only_on side) && not e.is_dir then e ∷ rest else rest

unfoldable pub extra_directories : Side → List CompareEntry → List CompareEntry
unfolding only_on status_eq
extra_directories side [] = []
extra_directories side (e ∷ es) =
    let rest = extra_directories side es in
    if status_eq e.status (only_on side) && e.is_dir then e ∷ rest else rest

-- QString::count(QChar)
unfoldable pub count_char : ℕ → Text → ℕ
count_char c [] = 0
count_char c (x ∷ s) = (if x == c then 1 else 0) + count_char c s

abbrev pub depth_of : CompareEntry → ℕ
depth_of e = count_char slash e.relative_path

-- the comparison that std::sort is given: more slashes first
unfoldable pub deeper : CompareEntry → CompareEntry → Bool
unfolding count_char
deeper a b = ltb (depth_of b) (depth_of a)

-- deleteEntriesAt for the entries under a root, where there are any
unfoldable pub deletion : Text → Bool → List CompareEntry → List (List (Text × Bool))
deletion root is_dir [] = []
deletion root is_dir (e ∷ es) =
    map (λ (x : CompareEntry). (join_path root x.relative_path, is_dir)) (e ∷ es) ∷ []

-- deleteSelected: the calls of deleteEntriesAt, first for the files, then for the directories as
-- `sort`, std::sort, leaves them
unfoldable pub delete_selected :
    ((CompareEntry → CompareEntry → Bool) → List CompareEntry → List CompareEntry)
    → Side
    → Text
    → List CompareEntry
    → List (List (Text × Bool))
unfolding extra_files extra_directories deletion deeper
delete_selected sort side root selected =
    deletion root false (extra_files side selected)
    ++ deletion root true (sort deeper (extra_directories side selected))
