-- ===== src/Compare/Safety.antt =====
-- What synchronising after a comparison may do: compare/CompareSyncExecutor.cpp on the results of
-- compare/DirectoryComparer.cpp.
use zephyrftp.Base.{
  ◌≡◌, refl, ap, Bool, true, false, ◌&&◌, ◌||◌, not, List, [], ◌∷◌, ◌++◌, Option, none, some, inl,
  inr, arith, All, All-append, Option-cases, Bool-cases, if-elim,
}
use zephyrftp.Base.Text.{Text}
use zephyrftp.Backends.Entry.{EnumeratedItem}
use zephyrftp.Compare.Comparer.{
  CompareEntry, normalized, find_path, ordered_paths, status_of_both, compare_entry, compare_paths,
  classify,
}
use zephyrftp.Compare.Coverage.{is_path_of, find_path_found}
use zephyrftp.Compare.Sync.{Side, left, right, only_on, status_eq, extra_files, extra_directories}

-- the items of the other side of a comparison
abbrev pub other_items : Side → List EnumeratedItem → List EnumeratedItem → List EnumeratedItem
other_items left left_items right_items = right_items
other_items right left_items right_items = left_items

abbrev pub is_missing : Side → List EnumeratedItem → List EnumeratedItem → CompareEntry → Bool
is_missing side left_items right_items e =
    not (is_path_of e.relative_path (other_items side left_items right_items))

find_path-none :
    (path : Text) (items : List EnumeratedItem)
    → find_path path items ≡ none
    → is_path_of path items ≡ false
find_path-none path items n = elim (Bool-cases (is_path_of path items)) [
  | inl h ↦ let (item, e) = find_path_found path items h in absurd (ground arith)
  | inr h ↦ h
]

status_of_both-extra :
    (side : Side) (l r : EnumeratedItem) → status_eq (status_of_both l r) (only_on side) ≡ false
unfolding status_eq only_on status_of_both
status_of_both-extra left l r = ground arith
status_of_both-extra right l r = ground arith

-- what the other side of an entry was found to be
abbrev other_found : Side → Option EnumeratedItem → Option EnumeratedItem → Option EnumeratedItem
other_found left l r = r
other_found right l r = l

compare_entry-extra :
    (side : Side) (path : Text) (l r : Option EnumeratedItem) (e : CompareEntry)
    → compare_entry path l r ≡ some e
    → status_eq e.status (only_on side) ≡ true
    → (other_found side l r ≡ none) × (e.relative_path ≡ path)
unfolding compare_entry status_eq only_on
compare_entry-extra left path (some a) none e h x = (refl, ground arith)
compare_entry-extra right path (some a) none e h x = absurd (ground arith)
compare_entry-extra left path none (some b) e h x = absurd (ground arith)
compare_entry-extra right path none (some b) e h x = (refl, ground arith)
compare_entry-extra side path none none e h x = absurd (ground arith)
compare_entry-extra side path (some a) (some b) e h x = absurd (
    ground (
      arith,
      status_of_both-extra side a b,
      ap
          (λ (o : Option CompareEntry). elim o [
            | none ↦ false
            | some y ↦ status_eq y.status (only_on side)
          ])
          h,
    ))

compare_entry-is_missing :
    (side : Side) (path : Text) (l r : List EnumeratedItem) (e : CompareEntry)
    → compare_entry path (find_path path l) (find_path path r) ≡ some e
    → status_eq e.status (only_on side) ≡ true
    → is_missing side l r e ≡ true
compare_entry-is_missing left path l r e h x =
    let (n, p) = compare_entry-extra left path (find_path path l) (find_path path r) e h x in
    rw p (ground (arith, find_path-none path r n))
compare_entry-is_missing right path l r e h x =
    let (n, p) = compare_entry-extra right path (find_path path l) (find_path path r) e h x in
    rw p (ground (arith, find_path-none path l n))

-- The test that deleteSelected makes of an entry's status, against the items of the other side.
abbrev is_safe : Side → List EnumeratedItem → List EnumeratedItem → CompareEntry → Bool
is_safe side l r e = not (status_eq e.status (only_on side)) || is_missing side l r e

compare_paths-is_safe :
    (side : Side) (l r : List EnumeratedItem) (paths : List Text)
    → All (λ e. is_safe side l r e ≡ true) (compare_paths l r paths)
unfolding compare_paths
compare_paths-is_safe side l r [] = tt
compare_paths-is_safe side l r (path ∷ paths) =
    elim (Option-cases (compare_entry path (find_path path l) (find_path path r))) [
      | inl n ↦ rw (n, compare_paths) (compare_paths-is_safe side l r paths)
      | inr (e, h) ↦
          rw (h, compare_paths)
            (
              ground (arith, compare_entry-is_missing side path l r e h),
              compare_paths-is_safe side l r paths,
            )
    ]

extra_files-is_missing :
    (side : Side) (l r : List EnumeratedItem) (es : List CompareEntry)
    → All (λ e. is_safe side l r e ≡ true) es
    → All (λ e. is_missing side l r e ≡ true) (extra_files side es)
unfolding extra_files
extra_files-is_missing side l r [] h = tt
extra_files-is_missing side l r (e ∷ es) h =
    if-elim (All (λ e. is_missing side l r e ≡ true))
      (status_eq e.status (only_on side) && not e.is_dir) _ _
      (λ x. (ground (arith, h.0), extra_files-is_missing side l r es h.1))
      (λ _. extra_files-is_missing side l r es h.1)

extra_directories-is_missing :
    (side : Side) (l r : List EnumeratedItem) (es : List CompareEntry)
    → All (λ e. is_safe side l r e ≡ true) es
    → All (λ e. is_missing side l r e ≡ true) (extra_directories side es)
unfolding extra_directories
extra_directories-is_missing side l r [] h = tt
extra_directories-is_missing side l r (e ∷ es) h =
    if-elim (All (λ e. is_missing side l r e ≡ true))
      (status_eq e.status (only_on side) && e.is_dir) _ _
      (λ x. (ground (arith, h.0), extra_directories-is_missing side l r es h.1))
      (λ _. extra_directories-is_missing side l r es h.1)

-- Of all that a comparison reports, deleting on a side takes only files and directories that the
-- other side does not have.
pub delete_selected_extra :
    (side : Side) (left_items right_items : List EnumeratedItem)
    → All
        (λ e. is_missing side (normalized left_items) (normalized right_items) e ≡ true)
        (extra_files side (classify left_items right_items)
          ++ extra_directories side (classify left_items right_items))
unfolding classify
delete_selected_extra side left_items right_items =
    let l = normalized left_items in
    let r = normalized right_items in
    let safe = compare_paths-is_safe side l r (ordered_paths l r) in
    All-append _ (extra_files side (compare_paths l r (ordered_paths l r))) _
      (extra_files-is_missing side l r (compare_paths l r (ordered_paths l r)) safe)
      (extra_directories-is_missing side l r (compare_paths l r (ordered_paths l r)) safe)
