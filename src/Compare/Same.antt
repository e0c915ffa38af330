-- ===== src/Compare/Same.antt =====
-- Comparing and synchronising two directories that are the same.
use zephyrftp.Base.{
  Bool, ℕ, ◌≡◌, refl, ap, ◌∙◌, true, false, ◌&&◌, ◌||◌, not, List, [], ◌∷◌, Option, none, some, inl,
  inr, arith, ==_refl, All, Option-cases,
}
use zephyrftp.Base.Text.{Text}
use zephyrftp.Backends.Entry.{EnumeratedItem}
use zephyrftp.Queue.State.{TransferManager}
use zephyrftp.Compare.Comparer.{
  CompareEntry, identical, differs, normalized, find_path, ordered_paths, same_time, status_of_both,
  compare_entry, compare_paths, classify,
}
use zephyrftp.Compare.Sync.{
  deeper, Side, left, right, only_on, status_eq, copy_directories, copy_files, copy_selected,
  extra_files, extra_directories, deletion, delete_selected,
}

abbrev IsIdentical : CompareEntry → Type 0
IsIdentical e = e.status ≡ identical

same_time_refl : (t : Option ℕ) → same_time t t ≡ true
unfolding same_time
same_time_refl none = refl
same_time_refl (some n) = ==_refl n

status_of_both_self : (item : EnumeratedItem) → status_of_both item item ≡ identical
unfolding status_of_both
status_of_both_self item = ground (arith, same_time_refl item.modified)

compare_paths-IsIdentical :
    (items : List EnumeratedItem) (paths : List Text)
    → All IsIdentical (compare_paths items items paths)
unfolding compare_paths compare_entry
compare_paths-IsIdentical items [] = tt
compare_paths-IsIdentical items (path ∷ paths) = elim (Option-cases (find_path path items)) [
  | inl n ↦ rw (n, compare_paths, compare_entry) (compare_paths-IsIdentical items paths)
  | inr (item, e) ↦
      rw (e, compare_paths, compare_entry)
        (status_of_both_self item, compare_paths-IsIdentical items paths)
]

-- An identical entry passes none of the executor's tests.
identical_passes_none :
    (side : Side) (e : CompareEntry)
    → IsIdentical e
    → (status_eq e.status (only_on side) ≡ false) × (status_eq e.status differs ≡ false)
unfolding status_eq only_on
identical_passes_none left e h = (ground arith, ground arith)
identical_passes_none right e h = (ground arith, ground arith)

copy_directories-identical :
    (side : Side) (dest : ℕ) (es : List CompareEntry) (s : TransferManager)
    → All IsIdentical es
    → copy_directories side dest es s ≡ s
unfolding copy_directories
copy_directories-identical side dest [] s h = refl
copy_directories-identical side dest (e ∷ es) s h =
    let skip : (e.is_dir && status_eq e.status (only_on side)) ≡ false =
      ground (arith, identical_passes_none side e h.0) in
    rw (skip, copy_directories) (copy_directories-identical side dest es s h.1)

copy_files-identical :
    (side : Side) (source dest : ℕ) (es : List CompareEntry) (s : TransferManager)
    → All IsIdentical es
    → copy_files side source dest es s ≡ s
unfolding copy_files
copy_files-identical side source dest [] s h = refl
copy_files-identical side source dest (e ∷ es) s h =
    let skip : (not e.is_dir && (status_eq e.status (only_on side) || status_eq e.status differs))
        ≡ false =
      ground (arith, identical_passes_none side e h.0) in
    rw (skip, copy_files) (copy_files-identical side source dest es s h.1)

extra-identical :
    (side : Side) (es : List CompareEntry)
    → All IsIdentical es
    → (extra_files side es ≡ []) × (extra_directories side es ≡ [])
unfolding extra_files extra_directories
extra-identical side [] h = (refl, refl)
extra-identical side (e ∷ es) h =
    let (files, directories) = extra-identical side es h.1 in
    let (other, differ) = identical_passes_none side e h.0 in
    (ground (arith, other, files), ground (arith, other, directories))

-- Two directories with the same listing have nothing to synchronise: copying all that their
-- comparison reports, in either direction, changes nothing in the queue, and deleting it on either
-- side deletes nothing (`sort` is std::sort, which leaves an empty list empty).
pub synchronise_same :
    (sort : (CompareEntry → CompareEntry → Bool) → List CompareEntry → List CompareEntry)
    → sort deeper [] ≡ []
    → (side : Side) (source dest : ℕ) (root : Text) (items : List EnumeratedItem)
      (s : TransferManager)
    → (copy_selected side source dest (classify items items) s ≡ s)
      × (delete_selected sort side root (classify items items) ≡ [])
unfolding classify copy_selected delete_selected deletion
synchronise_same sort empty side source dest root items s =
    let l = normalized items in
    let same = compare_paths-IsIdentical l (ordered_paths l l) in
    let es = compare_paths l l (ordered_paths l l) in
    let (files, directories) = extra-identical side es same in
    (
      ap (copy_files side source dest es) (copy_directories-identical side dest es s same)
          ∙ copy_files-identical side source dest es s same,
      rw (files, directories, empty) refl,
    )
