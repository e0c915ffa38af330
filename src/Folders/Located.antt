-- ===== src/Folders/Located.antt =====
-- Where the directories of an enumeration lie: transfer/FolderEnumerator.cpp, m_pending and m_results.
use zephyrftp.Base.{
  append_assoc, append_nil, ℕ, zero, suc, ◌≡◌, refl, ap, sym, ◌∙◌, Bool, true, false, List, [], ◌∷◌,
  ◌++◌, map, arith, if◌then◌else◌, if-elim, length, All, drop,
}
use zephyrftp.Base.Text.{Text, ends_with}
use zephyrftp.Paths.{join_path, slash}
use zephyrftp.Backends.Entry.{RemoteEntry, EnumeratedItem}
use zephyrftp.Folders.Enumerator.{PendingDir, FolderEnumerator, found_item, found_dir, take_entries}

-- The paths of the directories among the results, in order.
unfoldable pub directories : List EnumeratedItem → List Text
directories [] = []
directories (e ∷ es) =
    let rest = directories es in if e.is_dir then e.relative_path ∷ rest else rest

-- The path on the server of a result: the root's path in the place of the root's name.
abbrev pub absolute_of : Text → Text → Text → Text
absolute_of root_path root_name path = root_path ++ drop (length root_name) path

-- The directories among the entries of a listing.
unfoldable pub found_dirs : PendingDir → List RemoteEntry → List PendingDir
unfolding found_dir
found_dirs dir [] = []
found_dirs dir (e ∷ es) = found_dir dir e ++ found_dirs dir es

pub map-append {ℓ κ} :
    {A : Type ℓ} {B : Type κ}
    → (f : A → B) (xs ys : List A) → map f (xs ++ ys) ≡ map f xs ++ map f ys
map-append f [] ys = refl
map-append f (x ∷ xs) ys = ap (◌∷◌ (f x)) (map-append f xs ys)

pub directories-append :
    (xs ys : List EnumeratedItem) → directories (xs ++ ys) ≡ directories xs ++ directories ys
unfolding directories
directories-append [] ys = refl
directories-append (x ∷ xs) ys = ground (arith, directories-append xs ys)

-- What a listing adds.
pub take_entries_lem :
    (es : List RemoteEntry) (s : FolderEnumerator)
    → take_entries es s ≡ record s {
      results = s.results ++ map (found_item s.active_dir) es;
      pending = s.pending ++ found_dirs s.active_dir es;
    }
unfolding take_entries found_dirs
take_entries_lem [] s = rw (append_nil s.results, append_nil s.pending) refl
take_entries_lem (e ∷ es) s =
    rw
      (
        take_entries_lem es (record s {
          results = s.results ++ found_item s.active_dir e ∷ [];
          pending = s.pending ++ found_dir s.active_dir e;
        }),
        append_assoc s.results (found_item s.active_dir e ∷ []) (map (found_item s.active_dir) es),
        append_assoc s.pending (found_dir s.active_dir e) (found_dirs s.active_dir es),
      )
      refl

ends_with-behind : (c a : ℕ) (s t : Text) → ends_with c (s ++ a ∷ t) ≡ ends_with c (a ∷ t)
unfolding ends_with
ends_with-behind c a [] t = refl
ends_with-behind c a (x ∷ []) t = refl
ends_with-behind c a (x ∷ (y ∷ s)) t = ends_with-behind c a (y ∷ s) t

-- Two texts that end alike end alike with the same text behind them.
ends_with-alike :
    (c : ℕ) (s t u : Text)
    → ends_with c s ≡ ends_with c t
    → ends_with c (s ++ u) ≡ ends_with c (t ++ u)
ends_with-alike c s t [] h = rw (append_nil s, append_nil t) h
ends_with-alike c s t (a ∷ u) h = ends_with-behind c a s u ∙ sym (ends_with-behind c a t u)

drop-append {ℓ} : {A : Type ℓ} → (xs ys : List A) → drop (length xs) (xs ++ ys) ≡ ys
drop-append [] ys = refl
drop-append (x ∷ xs) ys = drop-append xs ys

pub drop-append_front {ℓ} :
    {A : Type ℓ}
    → (k : ℕ) (x : A) (xs ys zs : List A) → drop k xs ≡ x ∷ ys
    → drop k (xs ++ zs) ≡ x ∷ (ys ++ zs)
drop-append_front zero x xs ys zs e = ap (λ us. us ++ zs) e
drop-append_front (suc k) x [] ys zs e = absurd (ground arith)
drop-append_front (suc k) x (u ∷ us) ys zs e = drop-append_front k x us ys zs e

module _ (root_path root_name : Text) where
  -- A directory that lies under the root's path as its result does under the root's name.
  abbrev pub Located : PendingDir → Type 0
  Located d =
      (below : Text) × (d.absolute_path ≡ root_path ++ below)
      × (d.relative_prefix ≡ root_name ++ below)

  pub root-Located : Located (record { absolute_path = root_path; relative_prefix = root_name })
  root-Located = ([], sym (append_nil root_path), sym (append_nil root_name))

  pub Located-absolute :
      (d : PendingDir)
      → Located d
      → d.absolute_path ≡ absolute_of root_path root_name d.relative_prefix
  Located-absolute d (below, path, name) =
      path
      ∙ ap (λ t. root_path ++ t)
          (sym (ap (drop (length root_name)) name ∙ drop-append root_name below))

  module _ (alike : ends_with slash root_path ≡ ends_with slash root_name) where
    -- A thing in a located directory is located.
    join-Located :
        (d : PendingDir) (name : Text)
        → Located d
        → Located (record {
          absolute_path = join_path d.absolute_path name;
          relative_prefix = join_path d.relative_prefix name;
        })
    unfolding join_path
    join-Located d name (below, path, prefix) =
        let same = ends_with-alike slash root_path root_name below alike in
        (
          (if ends_with slash (root_name ++ below) then below ++ name else below ++ slash ∷ name),
          rw (path, same) (joined root_path (ends_with slash (root_name ++ below))),
          rw prefix (joined root_name (ends_with slash (root_name ++ below))),
        )
      where
        joined :
            (root : Text) (b : Bool)
            → (if b then (root ++ below) ++ name else (root ++ below) ++ slash ∷ name)
              ≡ root ++ (if b then below ++ name else below ++ slash ∷ name)
        joined root true = append_assoc root below name
        joined root false = append_assoc root below (slash ∷ name)

    pub found_dirs-Located :
        (d : PendingDir) (es : List RemoteEntry) → Located d → All Located (found_dirs d es)
    unfolding found_dirs found_dir
    found_dirs-Located d [] h = tt
    found_dirs-Located d (e ∷ es) h =
        if-elim (λ (ds : List PendingDir). All Located (ds ++ found_dirs d es)) e.is_dir _ _
          (λ _. (join-Located d e.name h, found_dirs-Located d es h))
          (λ _. found_dirs-Located d es h)

pub found_dirs-directories :
    (d : PendingDir) (es : List RemoteEntry)
    → map (λ x. x.relative_prefix) (found_dirs d es) ≡ directories (map (found_item d) es)
unfolding found_dirs found_dir found_item directories
found_dirs-directories d [] = refl
found_dirs-directories d (e ∷ es) = ground (arith, found_dirs-directories d es)

pub absolute_paths :
    (root_path root_name : Text) (ds : List PendingDir)
    → All (Located root_path root_name) ds
    → map (λ x. x.absolute_path) ds
      ≡ map (absolute_of root_path root_name) (map (λ x. x.relative_prefix) ds)
absolute_paths root_path root_name [] h = refl
absolute_paths root_path root_name (d ∷ ds) h =
    rw (Located-absolute root_path root_name d h.0, absolute_paths root_path root_name ds h.1) refl
