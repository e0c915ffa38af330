-- ===== src/Compare/Comparer.antt =====
-- compare/CompareTypes.h, DirectoryComparer.h and DirectoryComparer.cpp. A size of -1 is `none`.
use zephyrftp.Base.{
  ℕ, Bool, true, false, ◌&&◌, ◌||◌, not, List, [], ◌∷◌, ◌++◌, Option, none, some, exists, ◌==◌,
  if◌then◌else◌,
}
use zephyrftp.Base.Text.{Text, codes, text_eq, is_empty}
use zephyrftp.Backends.Entry.{EnumeratedItem}

pub data CompareStatus : Type 0 where
  only_left only_right differs identical : CompareStatus

pub record CompareEntry : Type 0 where
  pub relative_path : Text
  pub is_dir : Bool
  pub status : CompareStatus
  pub left_size : Option ℕ
  pub right_size : Option ℕ
  pub left_modified : Option ℕ
  pub right_modified : Option ℕ

-- The leading slash of a path, which the empty root name leaves there, goes.
unfoldable pub without_slash : Text → Text
without_slash [] = []
without_slash (c ∷ path) = if c == b'/' then path else c ∷ path

-- normalized: the root itself is left out
unfoldable pub normalized : List EnumeratedItem → List EnumeratedItem
unfolding without_slash
normalized [] = []
normalized (item ∷ items) =
    let rest = normalized items in
    if is_empty item.relative_path
    then rest
    else record item { relative_path = without_slash item.relative_path } ∷ rest

-- leftMap and rightMap: of two items with the same path the later one is found
unfoldable pub find_path : Text → List EnumeratedItem → Option EnumeratedItem
find_path path [] = none
find_path path (item ∷ items) = elim (find_path path items) [
  | some later ↦ some later
  | none ↦ if text_eq item.relative_path path then some item else none
]

abbrev pub has_path : Text → List Text → Bool
has_path path = exists (λ p. text_eq p path)

-- The paths of the items are appended, each that was not seen.
unfoldable pub add_unseen : List Text → List EnumeratedItem → List Text
add_unseen seen [] = seen
add_unseen seen (item ∷ items) =
    add_unseen (if has_path item.relative_path seen then seen else seen ++ item.relative_path ∷ [])
      items

-- orderedPaths
unfoldable pub ordered_paths : List EnumeratedItem → List EnumeratedItem → List Text
unfolding add_unseen
ordered_paths left right = add_unseen (add_unseen [] left) right

-- operator== on QDateTime
unfoldable pub same_time : Option ℕ → Option ℕ → Bool
same_time none none = true
same_time none (some b) = false
same_time (some a) none = false
same_time (some a) (some b) = a == b

-- The status of a path that is on both sides.
unfoldable pub status_of_both : EnumeratedItem → EnumeratedItem → CompareStatus
unfolding same_time
status_of_both left right =
    if left.is_dir && not right.is_dir || not left.is_dir && right.is_dir
    then differs
    else if left.is_dir
    then identical
    else if left.size == right.size && same_time left.modified right.modified
    then identical
    else differs

-- One round of the loop. With neither side a null pointer is dereferenced: `none`.
unfoldable pub compare_entry :
    Text → Option EnumeratedItem → Option EnumeratedItem → Option CompareEntry
unfolding status_of_both
compare_entry path (some left) none = some (record {
  relative_path = path;
  is_dir = left.is_dir;
  status = only_left;
  left_size = some left.size;
  right_size = none;
  left_modified = left.modified;
  right_modified = none;
})
compare_entry path none (some right) = some (record {
  relative_path = path;
  is_dir = right.is_dir;
  status = only_right;
  left_size = none;
  right_size = some right.size;
  left_modified = none;
  right_modified = right.modified;
})
compare_entry path (some left) (some right) = some (record {
  relative_path = path;
  is_dir = left.is_dir;
  status = status_of_both left right;
  left_size = some left.size;
  right_size = some right.size;
  left_modified = left.modified;
  right_modified = right.modified;
})
compare_entry path none none = none

unfoldable pub compare_paths :
    List EnumeratedItem → List EnumeratedItem → List Text → List CompareEntry
compare_paths left right [] = []
compare_paths left right (path ∷ paths) =
    let rest = compare_paths left right paths in
    elim (compare_entry path (find_path path left) (find_path path right)) [
      | none ↦ rest
      | some entry ↦ entry ∷ rest
    ]

-- classify: the results that are emitted
unfoldable pub classify : List EnumeratedItem → List EnumeratedItem → List CompareEntry
unfolding normalized ordered_paths compare_paths
classify left_items right_items =
    compare_paths (normalized left_items) (normalized right_items)
      (ordered_paths (normalized left_items) (normalized right_items))

pub data Outcome : Type 0 where
  compared : List CompareEntry → Outcome
  failed : Text → Outcome

pub record DirectoryComparer : Type 0 where
  pub left_done : Bool
  pub right_done : Bool
  pub has_failed : Bool
  pub left_items : List EnumeratedItem
  pub right_items : List EnumeratedItem
  -- what was emitted, newest first
  pub outcomes : List Outcome

unfoldable pub new_comparer : DirectoryComparer
new_comparer = record {
  left_done = false;
  right_done = false;
  has_failed = false;
  left_items = [];
  right_items = [];
  outcomes = [];
}

unfoldable pub maybe_classify : DirectoryComparer → DirectoryComparer
maybe_classify s =
    if s.has_failed || (not s.left_done || not s.right_done)
    then s
    else record s { outcomes = compared (classify s.left_items s.right_items) ∷ s.outcomes }

unfoldable pub on_left_finished : List EnumeratedItem → DirectoryComparer → DirectoryComparer
unfolding maybe_classify
on_left_finished items s =
    if s.has_failed then s else maybe_classify (record s { left_items = items; left_done = true })

unfoldable pub on_right_finished : List EnumeratedItem → DirectoryComparer → DirectoryComparer
unfolding maybe_classify
on_right_finished items s =
    if s.has_failed then s else maybe_classify (record s { right_items = items; right_done = true })

unfoldable pub on_left_failed : Text → DirectoryComparer → DirectoryComparer
on_left_failed reason s =
    if s.has_failed
    then s
    else record s { has_failed = true; outcomes = failed (codes "Left: " ++ reason) ∷ s.outcomes }

unfoldable pub on_right_failed : Text → DirectoryComparer → DirectoryComparer
on_right_failed reason s =
    if s.has_failed
    then s
    else record s { has_failed = true; outcomes = failed (codes "Right: " ++ reason) ∷ s.outcomes }
