-- ===== src/Runner/Signals.antt =====
-- cli/ScriptRunner.cpp: what the functions that are connected to signals do.
use zephyrftp.Base.{
  ℕ, zero, suc, Bool, true, false, ◌&&◌, ◌||◌, not, List, [], ◌∷◌, ◌++◌, Option, none, some, ◌==◌,
  length, keep, exists, null, if◌then◌else◌,
}
use zephyrftp.Base.Text.{Text}
use zephyrftp.Backends.Entry.{RemoteEntry}
use zephyrftp.Queue.Item.{TransferStatus, Message, is_terminal}
use zephyrftp.Compare.Comparer.{CompareEntry, only_left, only_right, differs}
use zephyrftp.Compare.Sync.{status_eq, delete_selected, right}
use zephyrftp.Runner.State.{
  PaneName, local, remote, Arrival, local_ready, remote_ready, opened, cd_done, lcd_done,
  mirror_local, mirror_remote, rm, Transfer, Wait, navigation, file_operation, existence, addition,
  transfer, listing, comparison, copying, deletion, Signal, directory_changed, connection_failed,
  directory_listed, file_operation_failed, exists_checked, item_added, item_updated, compare_failed,
  compare_finished, arrival_failed, operation_failed, nothing_to_remove, transfer_failed,
  compare_error, entry_printed, navigate_to, delete_entry, compare_directories, copy_selected,
  ScriptRunner, Surroundings, act, await, fail,
}
use zephyrftp.Runner.Operations.{pane_of, watch, execute_next, advance}

unfoldable pub same_pane : PaneName → PaneName → Bool
same_pane local local = true
same_pane remote remote = true
same_pane _ _ = false

-- QSet<int>: insert, remove, contains
unfoldable pub add_id : ℕ → List ℕ → List ℕ
add_id id ids = if exists (λ n. n == id) ids then ids else id ∷ ids

unfoldable pub remove_id : ℕ → List ℕ → List ℕ
remove_id id ids = keep (λ n. not (n == id)) ids

abbrev pub has_id : ℕ → List ℕ → Bool
has_id id = exists (λ n. n == id)

-- one deletion less: the wait that is left, unless it was the last
unfoldable pub settle_one : ℕ → ℕ → Option Wait
settle_one b zero = none
settle_one b (suc zero) = none
settle_one b (suc (suc n)) = some (deletion b (suc n))

-- an update of an item that a mirror copies
unfoldable pub settle_copy : ℕ → TransferStatus → List ℕ → List CompareEntry → Option Wait
unfolding remove_id
settle_copy id status pending deleted =
    if has_id id pending && is_terminal status
    then (if null (remove_id id pending)
        then none
        else some (copying (remove_id id pending) deleted))
    else some (copying pending deleted)

abbrev pub unless : Bool → Wait → Option Wait
unless b w = if b then none else some w

-- What is left of a wait when it hears a signal: `none` where it disconnects.
unfoldable pub heard : Signal → Wait → Option Wait
unfolding same_pane add_id settle_one settle_copy
heard (directory_changed q path) (navigation p b a) = unless (same_pane q p) (navigation p b a)
heard (connection_failed k reason) (navigation p b a) = unless (k == b) (navigation p b a)
heard (directory_listed k entries) (file_operation b op) = unless (k == b) (file_operation b op)
heard (directory_listed k entries) (listing b) = unless (k == b) (listing b)
heard (directory_listed k entries) (deletion b n) =
    let left = settle_one b n in if k == b then left else some (deletion b n)
heard (file_operation_failed k reason) (file_operation b op) = unless (k == b) (file_operation b op)
heard (file_operation_failed k reason) (deletion b n) =
    let left = settle_one b n in if k == b then left else some (deletion b n)
heard (exists_checked k found is_dir id) (existence b path n) =
    unless (k == b && id == n) (existence b path n)
heard (item_added id) (addition t) = none
heard (item_added id) (copying pending deleted) = some (copying (add_id id pending) deleted)
heard (item_updated id status message) (transfer n t) =
    unless (id == n && is_terminal status) (transfer n t)
heard (item_updated id status message) (copying pending deleted) =
    settle_copy id status pending deleted
heard (compare_failed reason) (comparison d) = none
heard (compare_finished results) (comparison d) = none
heard s w = some w

-- The calls of deleteEntry for the pairs that deleteEntriesAt gets.
unfoldable pub delete_all : ℕ → List (Text × Bool) → ScriptRunner → ScriptRunner
delete_all b [] r = r
delete_all b (p ∷ ps) r = delete_all b ps (act (delete_entry b p.0 p.1) r)

unfoldable pub delete_groups : ℕ → List (List (Text × Bool)) → ScriptRunner → ScriptRunner
unfolding delete_all
delete_groups b [] r = r
delete_groups b (ps ∷ groups) r = delete_groups b groups (delete_all b ps r)

unfoldable pub run_mirror_deletes : Surroundings → List CompareEntry → ScriptRunner → ScriptRunner
unfolding advance delete_groups delete_selected
run_mirror_deletes w [] r = advance w r
run_mirror_deletes w (e ∷ es) r =
    let pane = r.remote_pane in
    delete_groups pane.backend (delete_selected w.sort right pane.current_directory (e ∷ es))
      (await (deletion pane.backend (length (e ∷ es))) r)

unfoldable pub to_copy : List CompareEntry → List CompareEntry
unfolding status_eq
to_copy = keep (λ (e : CompareEntry). status_eq e.status only_left || status_eq e.status differs)

unfoldable pub to_delete : Bool → List CompareEntry → List CompareEntry
unfolding status_eq
to_delete with_delete = keep (λ (e : CompareEntry). with_delete && status_eq e.status only_right)

unfoldable pub on_mirror_compare_finished :
    Surroundings → List CompareEntry → Bool → ScriptRunner → ScriptRunner
unfolding run_mirror_deletes to_copy to_delete
on_mirror_compare_finished w results with_delete r =
    let deleted = to_delete with_delete results in
    elim (to_copy results) [
      | [] ↦ run_mirror_deletes w deleted r
      | e ∷ es ↦ act (copy_selected (e ∷ es)) (await (copying [] deleted) r)
    ]

-- The continuations of waitForNavigation that are called with true.
unfoldable pub arrive : Surroundings → Arrival → ScriptRunner → ScriptRunner
unfolding execute_next advance pane_of
arrive w local_ready r = watch remote remote_ready r
arrive w remote_ready r = execute_next w r
arrive w opened r = advance w r
arrive w cd_done r = advance w r
arrive w lcd_done r = advance w r
arrive w (mirror_local to d) r = act (navigate_to remote to) (watch remote (mirror_remote d) r)
arrive w (mirror_remote d) r =
    act
      (compare_directories r.local_pane.backend r.local_pane.current_directory r.remote_pane.backend
        r.remote_pane.current_directory)
      (await (comparison d) r)

unfoldable pub print_all : List RemoteEntry → ScriptRunner → ScriptRunner
print_all [] r = r
print_all (e ∷ es) r = print_all es (act (entry_printed e) r)

unfoldable pub checked : ℕ → Text → Bool → Bool → ScriptRunner → ScriptRunner
unfolding fail
checked b path false is_dir r = fail (nothing_to_remove path) r
checked b path true is_dir r = act (delete_entry b path is_dir) (await (file_operation b rm) r)

unfoldable pub transferred :
    Surroundings → TransferStatus → Transfer → Message → ScriptRunner → ScriptRunner
unfolding advance fail
transferred w TransferStatus.done t message r = advance w r
transferred w _ t message r = fail (transfer_failed t message) r

-- What a wait does that has disconnected on a signal.
unfoldable pub settled : Surroundings → Signal → Wait → ScriptRunner → ScriptRunner
unfolding arrive fail advance print_all checked transferred on_mirror_compare_finished
    run_mirror_deletes
settled w (directory_changed q path) (navigation p b a) r = arrive w a r
settled w (connection_failed k reason) (navigation p b a) r = fail (arrival_failed a reason) r
settled w (directory_listed k entries) (file_operation b op) r = advance w r
settled w (directory_listed k entries) (listing b) r = advance w (print_all entries r)
settled w (directory_listed k entries) (deletion b n) r = advance w r
settled w (file_operation_failed k reason) (file_operation b op) r =
    fail (operation_failed op reason) r
settled w (file_operation_failed k reason) (deletion b n) r = advance w r
settled w (exists_checked k found is_dir id) (existence b path n) r = checked b path found is_dir r
settled w (item_added id) (addition t) r = await (transfer id t) r
settled w (item_updated id status message) (transfer n t) r = transferred w status t message r
settled w (item_updated id status message) (copying pending deleted) r =
    run_mirror_deletes w deleted r
settled w (compare_failed reason) (comparison d) r = fail (compare_error reason) r
settled w (compare_finished results) (comparison d) r = on_mirror_compare_finished w results d r
settled w s other r = r

-- Every connection of before hears the signal, in turn; those that stay are kept.
unfoldable pub deliver : Surroundings → Signal → List Wait → List Wait → ScriptRunner → ScriptRunner
unfolding heard settled
deliver w s [] kept r = record r { waits = kept ++ r.waits }
deliver w s (x ∷ xs) kept r = elim (heard s x) [
  | some y ↦ deliver w s xs (kept ++ y ∷ []) r
  | none ↦ deliver w s xs kept (settled w s x r)
]

-- currentDirectory() is what the backend of a pane has listed last, which directoryChanged carries.
unfoldable pub see : Signal → ScriptRunner → ScriptRunner
see (directory_changed local path) r = record r {
  local_pane = record r.local_pane { current_directory = path };
}
see (directory_changed remote path) r = record r {
  remote_pane = record r.remote_pane { current_directory = path };
}
see _ r = r

unfoldable pub receive : Surroundings → Signal → ScriptRunner → ScriptRunner
unfolding deliver see
receive w s r = deliver w s r.waits [] (record (see s r) { waits = [] })

-- A run of signals, the newest first.
unfoldable pub run : Surroundings → List Signal → ScriptRunner → ScriptRunner
unfolding receive
run w [] r = r
run w (s ∷ ss) r = receive w s (run w ss r)
