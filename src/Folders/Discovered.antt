-- ===== src/Folders/Discovered.antt =====
-- What an enumeration finds on a server that answers each request: transfer/FolderEnumerator.cpp.
use zephyrftp.Base.{
  ℕ, zero, suc, ◌≡◌, ◌≢◌, refl, ap, ◌∙◌, sym, true, ◌⊎◌, inl, inr, List, [], ◌∷◌, ◌++◌, map, none,
  some, arith, length, All, All-append, subst, get_elem?, get_elem?-drop, get_elem?-drop_end, drop,
}
use zephyrftp.Base.Tests.{==_refl}
use zephyrftp.Base.Text.{Text, ends_with}
use zephyrftp.Paths.{slash}
use zephyrftp.Backends.Entry.{RemoteEntry}
use zephyrftp.Folders.Enumerator.{
  PendingDir, Output, FolderEnumerator, is_awaited, list_directory, items_discovered,
  new_enumerator, enumerate_next, root_item, start, found_item, take_entries,
  on_directory_enumerated,
}
use zephyrftp.Folders.Located.{
  directories, directories-append, absolute_of, found_dirs, take_entries_lem, map-append,
  drop-append_front, Located, Located-absolute, root-Located, found_dirs-Located,
  found_dirs-directories,
}
use zephyrftp.Folders.Served.{
  served_once, served, items_under, with_things, discovered, HasFinished, items_found, drop_further,
  served_once-Done,
}

module _ (root_path root_name : Text) where
  -- The enumerator waits for the listing of the active directory, the next one of those found.
  record Waits (k : ℕ) (s : FolderEnumerator) : Type 0 where
    active : Located root_path root_name s.active_dir
    waiting : All (Located root_path root_name) s.pending
    next :
        drop k (directories s.results)
        ≡ s.active_dir.relative_prefix ∷ map (λ d. d.relative_prefix) s.pending
    asked :
        (id : ℕ) × (os : List Output) × (s.output
          ≡ list_directory s.active_dir.absolute_path id ∷ os)
        × (s.active_request_id ≡ some id)

  record Done (k : ℕ) (s : FolderEnumerator) : Type 0 where
    said : HasFinished s.results s.output
    none_left : drop k (directories s.results) ≡ []

  abbrev Runs : ℕ → FolderEnumerator → Type 0
  Runs k s = Waits k s ⊎ Done k s

  -- The state in which the next directory is taken.
  record Ready (k : ℕ) (s : FolderEnumerator) : Type 0 where
    waiting : All (Located root_path root_name) s.pending
    next : drop k (directories s.results) ≡ map (λ d. d.relative_prefix) s.pending

  enumerate_next-Runs : (k : ℕ) (s : FolderEnumerator) → Ready k s → Runs k (enumerate_next s)
  unfolding enumerate_next
  enumerate_next-Runs k s v = go s.pending refl
    where
      go : (ds : List PendingDir) → s.pending ≡ ds → Runs k (enumerate_next s)
      go [] e =
          rw (e, enumerate_next)
            (inr (record { said = refl; none_left = v.next ∙ ap (map (λ d. d.relative_prefix)) e }))
      go (d ∷ ds) e =
          let w : All (Located root_path root_name) (d ∷ ds) =
            subst (All (Located root_path root_name)) e v.waiting in
          rw (e, enumerate_next)
            (inl (record {
              active = w.0;
              waiting = w.1;
              next = v.next ∙ ap (map (λ d. d.relative_prefix)) e;
              asked = (s.next_request_id, s.output, refl, refl);
            }))

  enumerate_next-results : (s : FolderEnumerator) → (enumerate_next s).results ≡ s.results
  unfolding enumerate_next
  enumerate_next-results s = go s.pending refl
    where
      go : (ds : List PendingDir) → s.pending ≡ ds → (enumerate_next s).results ≡ s.results
      go [] e = rw (e, enumerate_next) refl
      go (d ∷ ds) e = rw (e, enumerate_next) refl

  start-Runs : (next : ℕ) → Runs 0 (start (new_enumerator root_path root_name next))
  unfolding start new_enumerator enumerate_next root_item directories
  start-Runs next = inl (record {
    active = root-Located root_path root_name;
    waiting = tt;
    next = refl;
    asked = (next, [], refl, refl);
  })

  module _ (alike : ends_with slash root_path ≡ ends_with slash root_name) where
    -- An answer takes the things in the active directory up and leaves the next one active.
    answered-Runs :
        (k : ℕ) (es : List RemoteEntry) (id : ℕ) (s : FolderEnumerator)
        → Waits k s
        → s.active_request_id ≡ some id
        → Runs (suc k) (on_directory_enumerated es id s)
          × ((on_directory_enumerated es id s).results
              ≡ s.results ++ map (found_item s.active_dir) es)
    unfolding on_directory_enumerated
    answered-Runs k es id s v e =
        let ds = found_dirs s.active_dir es in
        let s' = take_entries es s in
        let t = record s' { output = items_discovered (length s'.results) ∷ s'.output } in
        let same = take_entries_lem es s in
        let next : drop (suc k) (directories (s.results ++ map (found_item s.active_dir) es))
            ≡ map (λ d. d.relative_prefix) (s.pending ++ ds) =
          ap (drop (suc k)) (directories-append s.results (map (found_item s.active_dir) es))
          ∙ ((get_elem?-drop _ k s.active_dir.relative_prefix _ (
                drop-append_front k s.active_dir.relative_prefix (directories s.results)
                  (map (λ d. d.relative_prefix) s.pending)
                  (directories (map (found_item s.active_dir) es)) v.next)).1
              ∙ (ap (λ ps. map (λ d. d.relative_prefix) s.pending ++ ps)
                    (sym (found_dirs-directories s.active_dir es))
                  ∙ sym (map-append (λ d. d.relative_prefix) s.pending ds))) in
        let ready : Ready (suc k) t = rw same (record {
          waiting =
              All-append _ s.pending ds v.waiting
                (found_dirs-Located root_path root_name alike s.active_dir es v.active);
          next = next;
        }) in
        let yes : is_awaited id s.active_request_id ≡ true = ap (is_awaited id) e ∙ ==_refl id in
        rw yes
          (enumerate_next-Runs (suc k) t ready, enumerate_next-results t ∙ ap (λ x. x.results) same)

    module _ (contents : Text → List RemoteEntry) where
      served_once-Runs :
          (k : ℕ) (s : FolderEnumerator)
          → Runs k s
          → s.results ≡ discovered contents root_path root_name k
          → Runs (suc k) (served_once contents s.output s)
            × ((served_once contents s.output s).results
                ≡ discovered contents root_path root_name (suc k))
      unfolding discovered
      served_once-Runs k s (inl v) same =
          let (id, os, out, awaited) = v.asked in
          let (runs, found) =
            answered-Runs k (contents s.active_dir.absolute_path) id s v awaited in
          let at =
            (get_elem?-drop (directories s.results) k s.active_dir.relative_prefix _ v.next).0 in
          let step : served_once contents s.output s
              ≡ on_directory_enumerated (contents s.active_dir.absolute_path) id s =
            ap (λ o. served_once contents o s) out ∙ (unfold served_once in refl) in
          (
            subst (Runs (suc k)) (sym step) runs,
            ap (λ x. x.results) step
                ∙ (found
                    ∙ (ap (λ zs. s.results ++ zs)
                          (items_found s.active_dir (contents s.active_dir.absolute_path)
                            ∙ ap (λ p. items_under s.active_dir.relative_prefix (contents p))
                                (Located-absolute root_path root_name s.active_dir v.active))
                        ∙ (ap (with_things _ s.results) (sym at)
                            ∙ ap
                                (λ found.
                                  with_things
                                    (λ path.
                                      items_under path
                                        (contents (absolute_of root_path root_name path)))
                                    found (get_elem? (directories found) k))
                                same))),
          )
      served_once-Runs k s (inr d) same =
          let still = served_once-Done contents s s.output d.said in
          let none_at = get_elem?-drop_end (directories s.results) k d.none_left in
          (
            subst (Runs (suc k)) (sym still) (
                inr (record {
                  said = d.said;
                  none_left = drop_further (directories s.results) k d.none_left;
                })),
            ap (λ x. x.results) still
                ∙ (ap (with_things _ s.results) (sym none_at)
                    ∙ ap
                        (λ found.
                          with_things
                            (λ path.
                              items_under path (contents (absolute_of root_path root_name path)))
                            found (get_elem? (directories found) k))
                        same),
          )

      served-Runs :
          (next k : ℕ)
          → Runs k (served contents k (start (new_enumerator root_path root_name next)))
            × ((served contents k (start (new_enumerator root_path root_name next))).results
                ≡ discovered contents root_path root_name k)
      unfolding served
      served-Runs next zero = (
        start-Runs next,
        unfold start in
            unfold new_enumerator in
            unfold enumerate_next in unfold root_item in unfold discovered in refl,
      )
      served-Runs next (suc k) =
          let (runs, same) = served-Runs next k in
          served_once-Runs k (served contents k (start (new_enumerator root_path root_name next)))
            runs same

      finishes :
          (k : ℕ) (s : FolderEnumerator)
          → Runs k s
          → s.results ≡ discovered contents root_path root_name k
          → (get_elem? (directories (discovered contents root_path root_name k)) k ≢ none)
            ⊎ HasFinished s.results s.output
      finishes k s (inr d) same = inr d.said
      finishes k s (inl v) same =
          let at =
            (get_elem?-drop (directories s.results) k s.active_dir.relative_prefix _ v.next).0 in
          inl (λ e. ground (arith, at, e, ap (λ rs. get_elem? (directories rs) k) same))

      -- A server that answers each request with its listing of the path that was asked for is
      -- enumerated breadth first: after k answers the results are the root and, in order, the things
      -- in the first k directories among them, each named under its directory, so that none stands
      -- before its parent; and where these are all the directories the enumerator has finished with
      -- these results. The root's path ends with a slash if and only if its name does.
      pub served-discovered :
          (next k : ℕ)
          → ((served contents k (start (new_enumerator root_path root_name next))).results
              ≡ discovered contents root_path root_name k)
            × ((get_elem? (directories (discovered contents root_path root_name k)) k ≢ none)
                ⊎ HasFinished
                    (served contents k (start (new_enumerator root_path root_name next))).results
                    (served contents k (start (new_enumerator root_path root_name next))).output)
      served-discovered next k =
          let (runs, same) = served-Runs next k in (same, finishes k _ runs same)
