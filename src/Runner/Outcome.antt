-- ===== src/Runner/Outcome.antt =====
-- Between two signals a script of cli/ScriptRunner.cpp waits for one outcome, or it has ended.
use zephyrftp.Base.{
  ℕ, zero, suc, ◌≡◌, refl, subst, ◌∙◌, sym, inl, inr, Bool, true, false, List, [], ◌∷◌, some, none,
  length, All, Option-cases, arith,
}
use zephyrftp.Base.Text.{Text}
use zephyrftp.Backends.Entry.{RemoteEntry}
use zephyrftp.Queue.Item.{TransferStatus, Message}
use zephyrftp.Compare.Comparer.{CompareEntry}
use zephyrftp.Compare.Sync.{delete_selected, right}
use zephyrftp.Script.Commands.{ScriptCommand, ScriptCommandType, accepted, parse_script}
use zephyrftp.Script.Accepted.{Fits, parse_script-Fits}
use zephyrftp.Runner.State.{
  local, remote, Arrival, local_ready, remote_ready, opened, cd_done, lcd_done, mirror_local,
  mirror_remote, rm, Transfer, Wait, navigation, file_operation, existence, addition, transfer,
  listing, comparison, copying, deletion, Signal, directory_changed, connection_failed,
  directory_listed, file_operation_failed, exists_checked, item_added, item_updated, compare_failed,
  compare_finished, arrival_failed, operation_failed, nothing_to_remove, transfer_failed,
  compare_error, entry_printed, delete_entry, copy_selected, ScriptRunner, Surroundings, new_runner,
  act, await, succeed,
}
use zephyrftp.Runner.Operations.{pane_of, run_script}
use zephyrftp.Runner.Signals.{
  settle_one, settle_copy, heard, delete_all, delete_groups, run_mirror_deletes, to_copy, to_delete,
  on_mirror_compare_finished, arrive, print_all, checked, transferred, settled, deliver, see,
  receive, run,
}
use zephyrftp.Runner.Orderly.{
  exit_codes, command_is, serves, navigates, Ready, Current, Orderly, await-Orderly, fail-Orderly,
}
use zephyrftp.Runner.Execution.{execute_next-Orderly, advance-Orderly}

-- What stays of a connection is of the same command.
heard-serves :
    (s : Signal) (x y : Wait) (t : ScriptCommandType) → heard s x ≡ some y → serves y t ≡ serves x t
unfolding heard serves settle_one settle_copy
heard-serves (directory_changed q path) (navigation p b a) y t h = ground arith
heard-serves (connection_failed k reason) (navigation p b a) y t h = ground arith
heard-serves (directory_listed k entries) (file_operation b op) y t h = ground arith
heard-serves (directory_listed k entries) (listing b) y t h = ground arith
heard-serves (directory_listed k entries) (deletion b zero) y t h = ground arith
heard-serves (directory_listed k entries) (deletion b (suc zero)) y t h = ground arith
heard-serves (directory_listed k entries) (deletion b (suc (suc n))) y t h = ground arith
heard-serves (file_operation_failed k reason) (file_operation b op) y t h = ground arith
heard-serves (file_operation_failed k reason) (deletion b zero) y t h = ground arith
heard-serves (file_operation_failed k reason) (deletion b (suc zero)) y t h = ground arith
heard-serves (file_operation_failed k reason) (deletion b (suc (suc n))) y t h = ground arith
heard-serves (exists_checked k found is_dir id) (existence b path n) y t h = ground arith
heard-serves (item_added id) (addition way) y t h = ground arith
heard-serves (item_added id) (copying pending deleted) y t h = ground arith
heard-serves (item_updated id status message) (transfer n way) y t h = ground arith
heard-serves (item_updated id status message) (copying pending deleted) y t h = ground arith
heard-serves (compare_failed reason) (comparison d) y t h = ground arith
heard-serves (compare_finished results) (comparison d) y t h = ground arith
heard-serves _ x y t h = ground arith

delete_all-Orderly :
    (b : ℕ) (ps : List (Text × Bool)) (r : ScriptRunner) → Orderly r → Orderly (delete_all b ps r)
unfolding delete_all exit_codes
delete_all-Orderly b [] r o = o
delete_all-Orderly b (p ∷ ps) r o = delete_all-Orderly b ps (act (delete_entry b p.0 p.1) r) o

delete_groups-Orderly :
    (b : ℕ) (groups : List (List (Text × Bool))) (r : ScriptRunner)
    → Orderly r
    → Orderly (delete_groups b groups r)
unfolding delete_groups
delete_groups-Orderly b [] r o = o
delete_groups-Orderly b (ps ∷ groups) r o =
    delete_groups-Orderly b groups (delete_all b ps r) (delete_all-Orderly b ps r o)

print_all-Ready : (es : List RemoteEntry) (r : ScriptRunner) → Ready r → Ready (print_all es r)
unfolding print_all exit_codes
print_all-Ready [] r ready = ready
print_all-Ready (e ∷ es) r ready = print_all-Ready es (act (entry_printed e) r) ready

-- A directory that changes leaves what the connections are judged by.
see-Ready :
    (s : Signal) (r : ScriptRunner)
    → Ready (record r { waits = [] })
    → Ready (record (see s r) { waits = [] })
unfolding see
see-Ready (directory_changed local path) r ready = ready
see-Ready (directory_changed remote path) r ready = ready
see-Ready _ r ready = ready

see-Current :
    (s : Signal) (c : ScriptCommand) (r : ScriptRunner) → Current r c → Current (see s r) c
unfolding see
see-Current (directory_changed local path) c r current = current
see-Current (directory_changed remote path) c r current = current
see-Current _ c r current = current

see-Orderly :
    (s : Signal) (r : ScriptRunner)
    → Orderly (record r { waits = [] })
    → Orderly (record (see s r) { waits = [] })
unfolding see
see-Orderly (directory_changed local path) r o = o
see-Orderly (directory_changed remote path) r o = o
see-Orderly _ r o = o

module _ (w : Surroundings) where
  module _ (c : ScriptCommand) (r : ScriptRunner) (ready : Ready r) (current : Current r c) where
    arrive-Orderly : (a : Arrival) → navigates a c.type ≡ true → Orderly (arrive w a r)
    unfolding arrive serves navigates exit_codes
    arrive-Orderly local_ready h =
        await-Orderly (navigation remote (pane_of remote r).backend remote_ready) c r ready current
          refl
    arrive-Orderly remote_ready h = execute_next-Orderly w r ready
    arrive-Orderly opened h = advance-Orderly w r ready
    arrive-Orderly cd_done h = advance-Orderly w r ready
    arrive-Orderly lcd_done h = advance-Orderly w r ready
    arrive-Orderly (mirror_local to d) h =
        await-Orderly (navigation remote (pane_of remote r).backend (mirror_remote d)) c r ready
          current h
    arrive-Orderly (mirror_remote d) h = await-Orderly (comparison d) c r ready current h

    run_mirror_deletes-Orderly :
        (es : List CompareEntry)
        → command_is ScriptCommandType.mirror c.type ≡ true
        → Orderly (run_mirror_deletes w es r)
    unfolding run_mirror_deletes serves
    run_mirror_deletes-Orderly [] t = advance-Orderly w r ready
    run_mirror_deletes-Orderly (e ∷ es) t =
        delete_groups-Orderly r.remote_pane.backend
          (delete_selected w.sort right r.remote_pane.current_directory (e ∷ es))
          (await (deletion r.remote_pane.backend (length (e ∷ es))) r)
          (await-Orderly (deletion r.remote_pane.backend (length (e ∷ es))) c r ready current t)

    on_mirror_compare_finished-Orderly :
        (results : List CompareEntry) (d : Bool)
        → command_is ScriptCommandType.mirror c.type ≡ true
        → Orderly (on_mirror_compare_finished w results d r)
    unfolding on_mirror_compare_finished serves exit_codes
    on_mirror_compare_finished-Orderly results d t =
        elim (to_copy results)
          as (λ es. Orderly (elim es [
            | [] ↦ run_mirror_deletes w (to_delete d results) r
            | e ∷ further ↦
                act (copy_selected (e ∷ further)) (await (copying [] (to_delete d results)) r)
          ])) [
            | [] ↦ run_mirror_deletes-Orderly (to_delete d results) t
            | e ∷ further ↦ await-Orderly (copying [] (to_delete d results)) c r ready current t
          ]

    checked-Orderly :
        (b : ℕ) (path : Text) (found is_dir : Bool)
        → command_is ScriptCommandType.rm c.type ≡ true
        → Orderly (checked b path found is_dir r)
    unfolding checked serves exit_codes
    checked-Orderly b path false is_dir t = fail-Orderly (nothing_to_remove path) c r ready current
    checked-Orderly b path true is_dir t = await-Orderly (file_operation b rm) c r ready current t

    transferred-Orderly :
        (status : TransferStatus) (way : Transfer) (message : Message)
        → Orderly (transferred w status way message r)
    unfolding transferred
    transferred-Orderly TransferStatus.done way message = advance-Orderly w r ready
    transferred-Orderly _ way message = fail-Orderly (transfer_failed way message) c r ready current

    -- A connection of the current command that disconnects leads on.
    settled-Orderly :
        (s : Signal) (x : Wait)
        → heard s x ≡ none
        → serves x c.type ≡ true
        → Orderly (settled w s x r)
    unfolding settled heard serves
    settled-Orderly (directory_changed q path) (navigation p b a) h t = arrive-Orderly a t
    settled-Orderly (connection_failed k reason) (navigation p b a) h t =
        fail-Orderly (arrival_failed a reason) c r ready current
    settled-Orderly (directory_listed k entries) (file_operation b op) h t =
        advance-Orderly w r ready
    settled-Orderly (directory_listed k entries) (listing b) h t =
        advance-Orderly w (print_all entries r) (print_all-Ready entries r ready)
    settled-Orderly (directory_listed k entries) (deletion b n) h t = advance-Orderly w r ready
    settled-Orderly (file_operation_failed k reason) (file_operation b op) h t =
        fail-Orderly (operation_failed op reason) c r ready current
    settled-Orderly (file_operation_failed k reason) (deletion b n) h t = advance-Orderly w r ready
    settled-Orderly (exists_checked k found is_dir id) (existence b path n) h t =
        checked-Orderly b path found is_dir t
    settled-Orderly (item_added id) (addition way) h t =
        await-Orderly (transfer id way) c r ready current t
    settled-Orderly (item_updated id status message) (transfer n way) h t =
        transferred-Orderly status way message
    settled-Orderly (item_updated id status message) (copying pending deleted) h t =
        run_mirror_deletes-Orderly deleted t
    settled-Orderly (compare_failed reason) (comparison d) h t =
        fail-Orderly (compare_error reason) c r ready current
    settled-Orderly (compare_finished results) (comparison d) h t =
        on_mirror_compare_finished-Orderly results d t
    settled-Orderly _ x h t = absurd (ground arith)

  deliver-Orderly :
      (s : Signal) (x : Wait) (c : ScriptCommand) (r : ScriptRunner)
      → Ready r
      → Current r c
      → serves x c.type ≡ true
      → Orderly (deliver w s (x ∷ []) [] r)
  unfolding deliver
  deliver-Orderly s x c r ready current t = elim (Option-cases (heard s x)) [
    | inl n ↦ rw (n, deliver) (settled-Orderly c r ready current s x n t)
    | inr (y, e) ↦
        let (sound, running, quiet, silent) = ready in
        rw (e, deliver)
          (
            sound,
            inl (y, c, rw quiet refl, current, heard-serves s x y c.type e ∙ t, running, silent),
          )
  ]

  receive-Orderly : (s : Signal) (r : ScriptRunner) → Orderly r → Orderly (receive w s r)
  unfolding receive deliver
  receive-Orderly s r (sound, inl (x, c, only, current, t, running, silent)) =
      subst (λ ws. Orderly (deliver w s ws [] (record (see s r) { waits = [] }))) (sym only)
        (deliver-Orderly s x c (record (see s r) { waits = [] })
          (see-Ready s r (sound, running, refl, silent)) (see-Current s c r current) t)
  receive-Orderly s r (sound, inr (over, none_left, code)) =
      subst (λ ws. Orderly (deliver w s ws [] (record (see s r) { waits = [] }))) (sym none_left)
        (see-Orderly s r (sound, inr (over, refl, code)))

  run-Orderly : (ss : List Signal) (r : ScriptRunner) → Orderly r → Orderly (run w ss r)
  unfolding run
  run-Orderly [] r o = o
  run-Orderly (s ∷ ss) r o = receive-Orderly s (run w ss r) (run-Orderly ss r o)

run_script-Orderly :
    (cs : List ScriptCommand) (from to : Text)
    → All Fits cs
    → Orderly (run_script cs (new_runner from to))
unfolding run_script succeed new_runner exit_codes serves navigates
run_script-Orderly [] from to h = ((refl, tt), inr (refl, refl, inl (refl, inl refl)))
run_script-Orderly (c ∷ cs) from to h =
    ((refl, h), inl (navigation local 0 local_ready, c, refl, refl, refl, refl, refl))

-- A script that the parser accepts never reads an argument that is not there, and between any two
-- signals, whatever they are, either exactly one connection is there, which is the current command's, and
-- no exit code was emitted, or none is and exactly one exit code was: 0 behind the last command or
-- at an exit, or 2 in a command of the script.
pub accepted_script-Orderly :
    (w : Surroundings) (is_space : ℕ → Bool) (trimmed to_lower : Text → Text) (text from to : Text)
    (cs : List ScriptCommand) (ss : List Signal)
    → parse_script is_space trimmed to_lower text ≡ accepted cs
    → Orderly (run w ss (run_script cs (new_runner from to)))
accepted_script-Orderly w is_space trimmed to_lower text from to cs ss e =
    run-Orderly w ss (run_script cs (new_runner from to))
      (run_script-Orderly cs from to (parse_script-Fits is_space trimmed to_lower text cs e))
