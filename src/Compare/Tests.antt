-- ===== src/Compare/Tests.antt =====
-- Two small listings, compared and synchronised.
use zephyrftp.Base.{
  ℕ, ◌≡◌, refl, Bool, true, false, List, [], ◌∷◌, ◌++◌, map, none, some, All, if◌then◌else◌,
}
use zephyrftp.Base.Text.{Text, codes, text_eq}
use zephyrftp.Backends.Entry.{EnumeratedItem}
use zephyrftp.Backends.Identity.{local}
use zephyrftp.Backends.Protocol.{no_connection}
use zephyrftp.Queue.State.{TransferManager, new_manager}
use zephyrftp.Compare.Comparer.{
  CompareEntry, compared, only_left, normalized, find_path, add_unseen, compare_entry, classify,
  new_comparer, on_left_finished, on_right_finished, on_left_failed, on_right_failed,
}
use zephyrftp.Compare.Coverage.{one_if, count_path, is_on_either, classify_covers}
use zephyrftp.Compare.Sync.{left, copy_selected, extra_files, extra_directories, delete_selected}
use zephyrftp.Compare.Safety.{is_missing, delete_selected_extra}
use zephyrftp.Compare.Same.{synchronise_same}
use zephyrftp.Compare.Finishing.{comparer_finishes_in_either_order, IgnoresAll, comparer_fails_once}

abbrev an_item : Text → Bool → ℕ → EnumeratedItem
an_item path is_dir size = record {
  relative_path = path;
  is_dir = is_dir;
  size = size;
  modified = some 5;
}

-- the root, a file on both sides, a file on the left, and two directories on the left
abbrev left_listing : List EnumeratedItem
left_listing =
    an_item [] true 0
    ∷ (an_item (codes "/a") false 3
        ∷ (an_item (codes "/b") false 4
            ∷ (an_item (codes "/d") true 0 ∷ (an_item (codes "/d/e") true 0 ∷ []))))

abbrev right_listing : List EnumeratedItem
right_listing = an_item [] true 0 ∷ (an_item (codes "/a") false 3 ∷ [])

classify_paths :
    map (λ (e : CompareEntry). e.relative_path) (classify left_listing right_listing)
    ≡ codes "a" ∷ (codes "b" ∷ (codes "d" ∷ (codes "d/e" ∷ [])))
unfolding classify find_path add_unseen compare_entry text_eq
classify_paths = refl

classify_covers_example :
    count_path
      (codes "b")
      (map (λ (e : CompareEntry). e.relative_path) (classify left_listing right_listing))
    ≡ one_if (is_on_either (codes "b") (normalized left_listing) (normalized right_listing))
classify_covers_example = classify_covers left_listing right_listing (codes "b")

delete_selected_extra_example :
    All
      (λ e. is_missing left (normalized left_listing) (normalized right_listing) e ≡ true)
      (extra_files left (classify left_listing right_listing)
        ++ extra_directories left (classify left_listing right_listing))
delete_selected_extra_example = delete_selected_extra left left_listing right_listing

abbrev no_panes : TransferManager
no_panes =
    new_manager
      (λ p. record {
        backend = 0;
        current_directory = [];
        connection_descriptor = no_connection;
        pool_backends = [];
        max_pool_size = 1;
        pool_factory = none;
      })
      (λ b. local) []

synchronise_same_example :
    (copy_selected left 0 1 (classify left_listing left_listing) no_panes ≡ no_panes)
    × (delete_selected (λ less es. es) left (codes "/r") (classify left_listing left_listing) ≡ [])
synchronise_same_example =
    synchronise_same (λ less es. es) refl left 0 1 (codes "/r") left_listing no_panes

comparer_finishes_in_either_order_example :
    ((on_right_finished right_listing (on_left_finished left_listing new_comparer)).outcomes
      ≡ compared (classify left_listing right_listing) ∷ [])
    × ((on_left_finished left_listing (on_right_finished right_listing new_comparer)).outcomes
        ≡ compared (classify left_listing right_listing) ∷ [])
    × ((on_left_finished left_listing new_comparer).outcomes ≡ [])
    × ((on_right_finished right_listing new_comparer).outcomes ≡ [])
comparer_finishes_in_either_order_example =
    comparer_finishes_in_either_order left_listing right_listing

comparer_fails_once_example :
    IgnoresAll left_listing (codes "b") (on_left_failed (codes "a") new_comparer)
    × IgnoresAll left_listing (codes "b") (on_right_failed (codes "a") new_comparer)
comparer_fails_once_example = comparer_fails_once left_listing (codes "a") (codes "b") new_comparer

-- An insertion sort, in the place of std::sort.
unfoldable insert :
    (CompareEntry → CompareEntry → Bool) → CompareEntry → List CompareEntry → List CompareEntry
insert less e [] = e ∷ []
insert less e (x ∷ es) = let rest = insert less e es in if less x e then x ∷ rest else e ∷ (x ∷ es)

unfoldable insertion_sort :
    (CompareEntry → CompareEntry → Bool) → List CompareEntry → List CompareEntry
unfolding insert
insertion_sort less [] = []
insertion_sort less (e ∷ es) = insert less e (insertion_sort less es)

abbrev a_directory : Text → CompareEntry
a_directory path = record {
  relative_path = path;
  is_dir = true;
  status = only_left;
  left_size = some 0;
  right_size = none;
  left_modified = some 5;
  right_modified = none;
}
