-- ===== src/Runner/Barriers.antt =====
-- The barriers of mirror in cli/ScriptRunner.cpp, and the signals that its connections do not hear.
use zephyrftp.Base.{
  ℕ, suc, ◌+◌, ◌≡◌, refl, subst, ◌∙◌, Bool, true, false, ◌&&◌, List, [], ◌∷◌, ◌++◌, length,
  length-map, All, if-elim, arith,
}
use zephyrftp.Base.Text.{Text}
use zephyrftp.Paths.{join_path}
use zephyrftp.Compare.Sync
use zephyrftp.Compare.Comparer.{CompareEntry, only_right}
use zephyrftp.Compare.Sync.{
  deeper, status_eq, only_on, delete_selected, extra_files, extra_directories, left, right,
  copy_selected, copy_files, copy_directories,
}
use zephyrftp.Runner.State.{deletion, Action, delete_entry, ScriptRunner, Surroundings, act, await}
use zephyrftp.Runner.Signals.{delete_all, delete_groups, run_mirror_deletes, to_delete}

-- The calls of deleteEntry that a log holds.
unfoldable pub delete_calls : List Action → ℕ
delete_calls [] = 0
delete_calls (delete_entry b path is_dir ∷ actions) = suc (delete_calls actions)
delete_calls (a ∷ actions) = delete_calls actions

abbrev pub total : List (List (Text × Bool)) → ℕ
total [] = 0
total (ps ∷ groups) = length ps + total groups

-- The deletions are called for, and nothing else changes.
abbrev pub Deletes : ℕ → ScriptRunner → ScriptRunner → Type 0
Deletes n r r' = (delete_calls r'.log ≡ n + delete_calls r.log) × (r'.waits ≡ r.waits)

delete_all-Deletes :
    (b : ℕ) (ps : List (Text × Bool)) (r : ScriptRunner) → Deletes (length ps) r (delete_all b ps r)
unfolding delete_all delete_calls
delete_all-Deletes b [] r = (omega arith, refl)
delete_all-Deletes b (p ∷ ps) r =
    let (calls, same) = delete_all-Deletes b ps (act (delete_entry b p.0 p.1) r) in
    (omega (arith, calls), same)

delete_groups-Deletes :
    (b : ℕ) (groups : List (List (Text × Bool))) (r : ScriptRunner)
    → Deletes (total groups) r (delete_groups b groups r)
unfolding delete_groups
delete_groups-Deletes b [] r = (omega arith, refl)
delete_groups-Deletes b (ps ∷ groups) r =
    let (calls, same) = delete_all-Deletes b ps r in
    let (further, as_before) = delete_groups-Deletes b groups (delete_all b ps r) in
    (omega (arith, calls, further), as_before ∙ same)

total-append : (g h : List (List (Text × Bool))) → total (g ++ h) ≡ total g + total h
total-append [] h = omega arith
total-append (ps ∷ g) h = omega (arith, total-append g h)

total-deletion :
    (root : Text) (b : Bool) (es : List CompareEntry) → total (Sync.deletion root b es) ≡ length es
unfolding Sync.deletion
total-deletion root b [] = refl
total-deletion root b (e ∷ es) = omega (
  arith,
  length-map {B = Text × Bool} (λ (x : CompareEntry). (join_path root x.relative_path, b)) (e ∷ es),
)

abbrev IsExtra : CompareEntry → Type 0
IsExtra e = status_eq e.status (only_on right) ≡ true

extras_split :
    (es : List CompareEntry)
    → All IsExtra es
    → length (extra_files right es) + length (extra_directories right es) ≡ length es
unfolding extra_files extra_directories
extras_split [] h = refl
extras_split (e ∷ es) (h, hs) = ground (arith, extras_split es hs)

to_delete-IsExtra : (d : Bool) (results : List CompareEntry) → All IsExtra (to_delete d results)
unfolding to_delete only_on
to_delete-IsExtra d [] = tt
to_delete-IsExtra d (e ∷ es) =
    if-elim (All IsExtra) (d && status_eq e.status only_right) (e ∷ to_delete d es) (to_delete d es)
      (λ h. (ground arith, to_delete-IsExtra d es)) (λ h. to_delete-IsExtra d es)

-- Every deletion that mirror waits for is called for: the connection counts as many outcomes as there
-- are calls of deleteEntry, where sorting keeps the number of the directories.
pub run_mirror_deletes-Deletes :
    (w : Surroundings)
    → ((es : List CompareEntry) → length (w.sort deeper es) ≡ length es)
    → (d : Bool) (results : List CompareEntry) (e : CompareEntry) (es : List CompareEntry)
      (r : ScriptRunner)
    → to_delete d results ≡ e ∷ es
    → Deletes
        (length (e ∷ es))
        (await (deletion r.remote_pane.backend (length (e ∷ es))) r)
        (run_mirror_deletes w (e ∷ es) r)
unfolding run_mirror_deletes delete_selected
run_mirror_deletes-Deletes w kept d results e es r f =
    let root = r.remote_pane.current_directory in
    let ds = extra_directories right (e ∷ es) in
    subst
      (λ n.
        Deletes n (await (deletion r.remote_pane.backend (length (e ∷ es))) r)
          (run_mirror_deletes w (e ∷ es) r))
      (total-append (Sync.deletion root false (extra_files right (e ∷ es)))
          (Sync.deletion root true (w.sort deeper ds))
        ∙ omega (
          arith,
          total-deletion root false (extra_files right (e ∷ es)),
          total-deletion root true (w.sort deeper ds),
          kept ds,
          extras_split (e ∷ es) (subst (All IsExtra) f (to_delete-IsExtra d results)),
        ))
      (delete_groups-Deletes r.remote_pane.backend (delete_selected w.sort right root (e ∷ es))
        (await (deletion r.remote_pane.backend (length (e ∷ es))) r))
