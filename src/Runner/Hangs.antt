-- ===== src/Runner/Hangs.antt =====
-- What a script of cli/ScriptRunner.cpp waits for without an end.
use zephyrftp.Base.{
  ℕ, ◌≡◌, refl, subst, sym, Bool, true, false, List, [], ◌∷◌, some, All, All-map, ◌==◌, ◌&&◌,
  if-elim, arith,
}
use zephyrftp.Compare.Comparer.{CompareEntry}
use zephyrftp.Compare.Sync
use zephyrftp.Compare.Sync.{Side, left}
use zephyrftp.Paths.{join_path}
use zephyrftp.Queue.State.{TransferManager, emit, create_directory}
use zephyrftp.Queue.Enqueue.{directory_of}
use zephyrftp.Runner.State.{
  PaneName, local, remote, Wait, listing, copying, Signal, directory_changed, directory_listed,
  item_added, Action, list_directory, copy_selected, ScriptRunner, Surroundings,
}
use zephyrftp.Runner.Operations.{pane_of, print_entries}
use zephyrftp.Runner.Signals.{
  heard, settle_copy, to_copy, to_delete, on_mirror_compare_finished, deliver, see, receive, run,
}

-- A signal that a connection does not hear leaves it there, and nothing else happens.
abbrev Deaf : Wait → Signal → Type 0
Deaf x s = heard s x ≡ some x

-- Only the connection is there, the script has not ended, and the log is the one of before.
abbrev pub Stuck : Wait → List Action → ScriptRunner → Type 0
Stuck x log r = (r.waits ≡ x ∷ []) × (r.finished ≡ false) × (r.log ≡ log)

see-Stuck :
    (x : Wait) (log : List Action) (s : Signal) (r : ScriptRunner)
    → Stuck x log r
    → Stuck x log (record (see s r) { waits = x ∷ [] })
unfolding see
see-Stuck x log (directory_changed local path) r (only, running, same) = (refl, running, same)
see-Stuck x log (directory_changed remote path) r (only, running, same) = (refl, running, same)
see-Stuck x log _ r (only, running, same) = (refl, running, same)

receive-Stuck :
    (w : Surroundings) (x : Wait) (log : List Action) (s : Signal) (r : ScriptRunner)
    → Deaf x s
    → Stuck x log r
    → Stuck x log (receive w s r)
unfolding receive deliver
receive-Stuck w x log s r deaf stuck =
    subst (λ ws. Stuck x log (deliver w s ws [] (record (see s r) { waits = [] }))) (sym stuck.0)
      (rw (deaf, deliver) (see-Stuck x log s r stuck))

run-Stuck :
    (w : Surroundings) (x : Wait) (log : List Action) (ss : List Signal) (r : ScriptRunner)
    → All (Deaf x) ss
    → Stuck x log r
    → Stuck x log (run w ss r)
unfolding run
run-Stuck w x log [] r h stuck = stuck
run-Stuck w x log (s ∷ ss) r (h, hs) stuck =
    receive-Stuck w x log s (run w ss r) h (run-Stuck w x log ss r hs stuck)

-- whether a signal is a listing of a backend
unfoldable pub lists : ℕ → Signal → Bool
lists b (directory_listed k entries) = k == b
lists b _ = false

-- whether a signal tells of a new item
unfoldable pub adds_item : Signal → Bool
adds_item (item_added id) = true
adds_item _ = false

listing-Deaf : (b : ℕ) (s : Signal) → lists b s ≡ false → Deaf (listing b) s
unfolding lists heard
listing-Deaf b (directory_listed k entries) h = rw h refl
listing-Deaf b _ h = refl

copying-Deaf :
    (deleted : List CompareEntry) (s : Signal) → adds_item s ≡ false → Deaf (copying [] deleted) s
unfolding adds_item heard settle_copy
copying-Deaf deleted (item_added id) h = absurd (ground arith)
copying-Deaf deleted _ h = refl

abbrev IsDir : CompareEntry → Type 0
IsDir e = e.is_dir ≡ true

copy_directories-items :
    (side : Side) (dest : ℕ) (es : List CompareEntry) (s : TransferManager)
    → (Sync.copy_directories side dest es s).items ≡ s.items
unfolding Sync.copy_directories
copy_directories-items side dest [] s = refl
copy_directories-items side dest (e ∷ es) s =
    if-elim (λ s'. (Sync.copy_directories side dest es s').items ≡ s.items)
      (e.is_dir && Sync.status_eq e.status (Sync.only_on side))
      (emit
        (create_directory (s.panes dest).backend (join_path (directory_of s dest) e.relative_path)
          false)
        s)
      s
      (λ h. copy_directories-items side dest es (
        emit
          (create_directory (s.panes dest).backend (join_path (directory_of s dest) e.relative_path)
            false)
          s))
      (λ h. copy_directories-items side dest es s)

copy_files-directories :
    (side : Side) (source dest : ℕ) (es : List CompareEntry) (s : TransferManager)
    → All IsDir es
    → Sync.copy_files side source dest es s ≡ s
unfolding Sync.copy_files
copy_files-directories side source dest [] s h = refl
copy_files-directories side source dest (e ∷ es) s (h, hs) =
    rw (h, Sync.copy_files) (copy_files-directories side source dest es s hs)

-- ls and lls wait for a listing alone: while none of the backend that was asked arrives, whatever else
-- does, the failure of the listing included, the script neither goes on nor ends.
pub failed_listing_hangs :
    (w : Surroundings) (p : PaneName) (r : ScriptRunner) (ss : List Signal)
    → r.waits ≡ []
    → r.finished ≡ false
    → All (λ s. lists (pane_of p r).backend s ≡ false) ss
    → Stuck
        (listing (pane_of p r).backend)
        (list_directory (pane_of p r).backend (pane_of p r).current_directory ∷ r.log)
        (run w ss (print_entries p r))
unfolding print_entries
failed_listing_hangs w p r ss quiet running h =
    run-Stuck w (listing (pane_of p r).backend)
      (list_directory (pane_of p r).backend (pane_of p r).current_directory ∷ r.log) ss
      (print_entries p r)
      (All-map (λ s. lists (pane_of p r).backend s ≡ false) (Deaf (listing (pane_of p r).backend))
        ss (listing-Deaf (pane_of p r).backend) h)
      (rw quiet refl, running, refl)

-- Where a mirror has only directories to copy, copySelected adds no item to the queue; and while no
-- item is added by another, the script neither goes on to the deletions nor ends.
pub mirror_of_directories_hangs :
    (w : Surroundings) (d : Bool) (results : List CompareEntry) (e : CompareEntry)
    (es : List CompareEntry) (r : ScriptRunner) (s : TransferManager) (ss : List Signal)
    → to_copy results ≡ e ∷ es
    → All IsDir (e ∷ es)
    → r.waits ≡ []
    → r.finished ≡ false
    → All (λ signal. adds_item signal ≡ false) ss
    → ((Sync.copy_selected left 0 1 (e ∷ es) s).items ≡ s.items)
      × Stuck
          (copying [] (to_delete d results))
          (copy_selected (e ∷ es) ∷ r.log)
          (run w ss (on_mirror_compare_finished w results d r))
unfolding on_mirror_compare_finished Sync.copy_selected
mirror_of_directories_hangs w d results e es r s ss f dirs quiet running h = (
  rw (copy_files-directories left 0 1 (e ∷ es) (Sync.copy_directories left 1 (e ∷ es) s) dirs)
      (copy_directories-items left 1 (e ∷ es) s),
  run-Stuck w (copying [] (to_delete d results)) (copy_selected (e ∷ es) ∷ r.log) ss
      (on_mirror_compare_finished w results d r)
      (All-map (λ signal. adds_item signal ≡ false) (Deaf (copying [] (to_delete d results))) ss
        (copying-Deaf (to_delete d results)) h)
      (rw (f, on_mirror_compare_finished) (rw quiet refl, running, refl)),
)
