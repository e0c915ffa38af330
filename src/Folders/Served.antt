-- ===== src/Folders/Served.antt =====
-- A server that answers an enumerator, and what there is to find on it:
-- transfer/FolderEnumerator.cpp.
use zephyrftp.Base.{
  ℕ, zero, suc, ◌≡◌, refl, true, List, [], ◌∷◌, ◌++◌, map, Option, none, some, arith, get_elem?,
  drop,
}
use zephyrftp.Base.Text.{Text}
use zephyrftp.Paths.{join_path}
use zephyrftp.Backends.Entry.{RemoteEntry, EnumeratedItem}
use zephyrftp.Folders.Enumerator.{
  PendingDir, Output, FolderEnumerator, list_directory, items_discovered, finished, failed,
  found_item, on_directory_enumerated,
}
use zephyrftp.Folders.Located.{directories, absolute_of}

-- A server that holds a listing for each path answers the request that is the last thing the
-- enumerator did.
unfoldable pub served_once :
    (Text → List RemoteEntry) → List Output → FolderEnumerator → FolderEnumerator
unfolding on_directory_enumerated
served_once contents (list_directory path id ∷ os) s = on_directory_enumerated (contents path) id s
served_once contents _ s = s

unfoldable pub served : (Text → List RemoteEntry) → ℕ → FolderEnumerator → FolderEnumerator
unfolding served_once
served contents zero s = s
served contents (suc k) s = let s' = served contents k s in served_once contents s'.output s'

-- The things in a directory, under its path.
abbrev pub items_under : Text → List RemoteEntry → List EnumeratedItem
items_under path es =
    map
      (λ e. record {
        relative_path = join_path path e.name;
        is_dir = e.is_dir;
        size = e.size;
        modified = e.modified;
      })
      es

pub items_found :
    (d : PendingDir) (es : List RemoteEntry)
    → map (found_item d) es ≡ items_under d.relative_prefix es
unfolding found_item
items_found d es = refl

abbrev pub with_things :
    (Text → List EnumeratedItem) → List EnumeratedItem → Option Text → List EnumeratedItem
with_things things found none = found
with_things things found (some path) = found ++ things path

-- What there is to find, breadth first: the root, then the things in the first directory that was
-- found, then those in the second, and so on, for this many directories.
unfoldable pub discovered : (Text → List RemoteEntry) → Text → Text → ℕ → List EnumeratedItem
unfolding directories
discovered contents root_path root_name zero =
    (record { relative_path = root_name; is_dir = true; size = 0; modified = none }) ∷ []
discovered contents root_path root_name (suc k) =
    let found = discovered contents root_path root_name k in
    with_things (λ path. items_under path (contents (absolute_of root_path root_name path))) found
      (get_elem? (directories found) k)

-- Whether the last that was emitted is that the enumeration has finished, with these results.
abbrev pub HasFinished : List EnumeratedItem → List Output → Type 0
HasFinished results (finished found ∷ os) = found ≡ results
HasFinished results _ = ⊥

pub drop_further {ℓ} : {A : Type ℓ} → (xs : List A) (k : ℕ) → drop k xs ≡ [] → drop (suc k) xs ≡ []
drop_further [] k e = refl
drop_further (x ∷ xs) zero e = absurd (ground arith)
drop_further (x ∷ xs) (suc k) e = drop_further xs k e

pub served_once-Done :
    (contents : Text → List RemoteEntry) (s : FolderEnumerator) (os : List Output)
    → HasFinished s.results os
    → served_once contents os s ≡ s
unfolding served_once
served_once-Done contents s [] h = absurd h
served_once-Done contents s (list_directory path id ∷ os) h = absurd h
served_once-Done contents s (items_discovered n ∷ os) h = absurd h
served_once-Done contents s (failed reason ∷ os) h = absurd h
served_once-Done contents s (finished found ∷ os) h = refl
