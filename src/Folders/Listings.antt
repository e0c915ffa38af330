-- ===== src/Folders/Listings.antt =====
-- Which directories an enumeration lists: transfer/FolderEnumerator.cpp.
use zephyrftp.Base.{
  append_assoc, ℕ, ◌≡◌, refl, ap, ◌∙◌, sym, List, [], ◌∷◌, ◌++◌, map, if-elim, length, All,
  All-append, subst,
}
use zephyrftp.Base.Text.{Text, codes, ends_with}
use zephyrftp.Paths.{slash}
use zephyrftp.Backends.Entry.{RemoteEntry}
use zephyrftp.Folders.Enumerator.{
  PendingDir, Output, FolderEnumerator, list_directory, items_discovered, finished, failed,
  new_enumerator, enumerate_next, root_item, start, found_item, take_entries, is_awaited,
  on_directory_enumerated, on_enumeration_failed, Reply, listed, refused, reply, Reached, started,
  replied,
}
use zephyrftp.Folders.Located.{
  directories, directories-append, absolute_of, found_dirs, take_entries_lem, map-append, Located,
  Located-absolute, root-Located, found_dirs-Located, found_dirs-directories, absolute_paths,
}

-- The paths that were asked for, the oldest first.
unfoldable pub listings : List Output → List Text
listings [] = []
listings (list_directory path id ∷ os) = listings os ++ path ∷ []
listings (items_discovered n ∷ os) = listings os
listings (finished es ∷ os) = listings os
listings (failed reason ∷ os) = listings os

module _ (root_path root_name : Text) where
  record Inv (s : FolderEnumerator) : Type 0 where
    active : Located root_path root_name s.active_dir
    waiting : All (Located root_path root_name) s.pending
    paths :
        listings s.output ++ map (λ d. d.absolute_path) s.pending
        ≡ map (absolute_of root_path root_name) (directories s.results)

  enumerate_next-Inv : (s : FolderEnumerator) → Inv s → Inv (enumerate_next s)
  unfolding enumerate_next listings
  enumerate_next-Inv s v = go s.pending refl
    where
      go : (ds : List PendingDir) → s.pending ≡ ds → Inv (enumerate_next s)
      go [] e =
          rw (e, enumerate_next)
            (record { active = v.active; waiting = v.waiting; paths = v.paths })
      go (d ∷ ds) e =
          let w : All (Located root_path root_name) (d ∷ ds) =
            subst (All (Located root_path root_name)) e v.waiting in
          rw (e, enumerate_next)
            (record {
              active = w.0;
              waiting = w.1;
              paths =
                  append_assoc (listings s.output) (d.absolute_path ∷ [])
                    (map (λ x. x.absolute_path) ds)
                  ∙ (ap (λ qs. listings s.output ++ map (λ x. x.absolute_path) qs) (sym e)
                      ∙ v.paths);
            })

  start-Inv : (next : ℕ) → Inv (start (new_enumerator root_path root_name next))
  unfolding start new_enumerator enumerate_next listings root_item directories
  start-Inv next = record {
    active = root-Located root_path root_name;
    waiting = tt;
    paths =
        ap (λ p. p ∷ [])
          (Located-absolute root_path root_name
            (record { absolute_path = root_path; relative_prefix = root_name })
            (root-Located root_path root_name));
  }

  module _ (alike : ends_with slash root_path ≡ ends_with slash root_name) where
    take_entries-Inv :
        (es : List RemoteEntry) (s : FolderEnumerator) → Inv s → Inv (take_entries es s)
    take_entries-Inv es s v =
        let ds = found_dirs s.active_dir es in
        let located = found_dirs-Located root_path root_name alike s.active_dir es v.active in
        rw (take_entries_lem es s) (record {
          active = v.active;
          waiting = All-append _ s.pending ds v.waiting located;
          paths =
              ap (λ ps. listings s.output ++ ps) (map-append (λ d. d.absolute_path) s.pending ds)
              ∙ (sym (
                    append_assoc (listings s.output) (map (λ d. d.absolute_path) s.pending)
                      (map (λ d. d.absolute_path) ds))
                  ∙ (rw
                      (
                        v.paths,
                        absolute_paths root_path root_name ds located,
                        found_dirs-directories s.active_dir es,
                        directories-append s.results (map (found_item s.active_dir) es),
                        map-append (absolute_of root_path root_name) (directories s.results)
                            (directories (map (found_item s.active_dir) es)),
                      )
                      refl));
        })

    reply-Inv : (r : Reply) (s : FolderEnumerator) → Inv s → Inv (reply r s)
    unfolding reply on_directory_enumerated on_enumeration_failed listings
    reply-Inv (listed entries id) s v =
        let s' = take_entries entries s in
        let w = take_entries-Inv entries s v in
        if-elim Inv _ _ _
          (λ _.
            enumerate_next-Inv
              (record s' { output = items_discovered (length s'.results) ∷ s'.output })
              (record { active = w.active; waiting = w.waiting; paths = w.paths }))
          (λ _. v)
    reply-Inv (refused path reason id) s v =
        if-elim Inv (is_awaited id s.active_request_id)
          (record s { output = failed (path ++ (codes ": " ++ reason)) ∷ s.output }) s
          (λ _. record { active = v.active; waiting = v.waiting; paths = v.paths }) (λ _. v)

    Reached-Inv : (next : ℕ) (s : FolderEnumerator) → Reached root_path root_name next s → Inv s
    Reached-Inv next _ started = start-Inv next
    Reached-Inv next _ (replied r s h) = reply-Inv r s (Reached-Inv next s h)

    -- Whatever replies come, the listings that were asked for and then those that wait are those of
    -- the directories among the results, the root included, each once, in the order in which they
    -- were found and at its own path under the root's; where the root's path ends with a slash if and
    -- only if its name does.
    pub enumerator_lists_once :
        (next : ℕ) (s : FolderEnumerator)
        → Reached root_path root_name next s
        → listings s.output ++ map (λ d. d.absolute_path) s.pending
          ≡ map (absolute_of root_path root_name) (directories s.results)
    enumerator_lists_once next s h = (Reached-Inv next s h).paths
