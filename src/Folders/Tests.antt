-- ===== src/Folders/Tests.antt =====
-- A run of the enumerator.
use zephyrftp.Base.{
  ◌≡◌, ◌≢◌, ◌⊎◌, ◌++◌, map, List, get_elem?, if◌then◌else◌, refl, true, false, [], ◌∷◌, none,
  length,
}
use zephyrftp.Base.Text.{Text, codes, text_eq, ends_with}
use zephyrftp.Backends.Entry.{RemoteEntry}
use zephyrftp.Folders.Enumerator.{
  FolderEnumerator, Reached, started, replied, reply, listed, start, new_enumerator, take_entries,
  root_item, found_item, found_dir, enumerate_next, on_directory_enumerated,
}
use zephyrftp.Paths.{join_path}
use zephyrftp.Folders.Located.{directories, absolute_of}
use zephyrftp.Folders.Served.{served, served_once, discovered, HasFinished}
use zephyrftp.Folders.Discovered.{served-discovered}
use zephyrftp.Folders.Listings.{listings, enumerator_lists_once}

abbrev a_file : RemoteEntry
a_file = record {
  name = codes "f";
  is_dir = false;
  is_symlink = false;
  size = 3;
  modified = none;
  permissions = [];
}

abbrev a_directory : RemoteEntry
a_directory = record {
  name = codes "d";
  is_dir = true;
  is_symlink = false;
  size = 0;
  modified = none;
  permissions = [];
}

-- A folder with a file and a directory was listed.
abbrev one_listing : FolderEnumerator
one_listing =
    reply (listed (a_file ∷ (a_directory ∷ [])) 7)
      (start (new_enumerator (codes "/r") (codes "r") 7))

one_listing-Reached : Reached (codes "/r") (codes "r") 7 one_listing
one_listing-Reached =
    replied (listed (a_file ∷ (a_directory ∷ [])) 7)
      (start (new_enumerator (codes "/r") (codes "r") 7)) started

one_listing-results : length one_listing.results ≡ 3
unfolding reply on_directory_enumerated start new_enumerator take_entries found_item found_dir
    enumerate_next
one_listing-results = refl

-- A server with a file and a directory in /r, and a file in each other directory.
abbrev small_server : Text → List RemoteEntry
small_server path = if text_eq path (codes "/r") then a_file ∷ (a_directory ∷ []) else a_file ∷ []

abbrev two_answers : FolderEnumerator
two_answers = served small_server 2 (start (new_enumerator (codes "/r") (codes "r") 7))

-- The file in the directory is found under the directory.
two_answers-found :
    map (λ e. e.relative_path) two_answers.results
    ≡ codes "r" ∷ (codes "r/f" ∷ (codes "r/d" ∷ (codes "r/d/f" ∷ [])))
unfolding served served_once on_directory_enumerated start new_enumerator take_entries found_item
    found_dir enumerate_next root_item join_path text_eq
two_answers-found = refl

served-discovered_example :
    (two_answers.results ≡ discovered small_server (codes "/r") (codes "r") 2)
    × ((get_elem? (directories (discovered small_server (codes "/r") (codes "r") 2)) 2 ≢ none)
        ⊎ HasFinished two_answers.results two_answers.output)
unfolding ends_with
served-discovered_example = served-discovered (codes "/r") (codes "r") refl small_server 7 2

enumerator_lists_once_example :
    listings one_listing.output ++ map (λ d. d.absolute_path) one_listing.pending
    ≡ map (absolute_of (codes "/r") (codes "r")) (directories one_listing.results)
unfolding ends_with
enumerator_lists_once_example =
    enumerator_lists_once (codes "/r") (codes "r") refl 7 one_listing one_listing-Reached
