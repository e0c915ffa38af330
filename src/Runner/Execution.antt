-- ===== src/Runner/Execution.antt =====
-- executeNext of cli/ScriptRunner.cpp: it ends the script, or waits for the outcome of a command.
use zephyrftp.Base.{
  ◌≡◌, refl, inl, inr, true, List, [], ◌∷◌, drop, All-get, get_elem?-drop, get_elem?-drop_end,
  arith,
}
use zephyrftp.Script.Commands.{ScriptCommand, ScriptCommandType}
use zephyrftp.Script.Accepted.{Fits, fits}
use zephyrftp.Runner.State.{local, remote, cd_done, lcd_done, get, put, ScriptRunner, Surroundings}
use zephyrftp.Runner.Operations.{
  run_echo, dispatch, next_index, execute_from, execute_next, advance,
}
use zephyrftp.Runner.Orderly.{serves, navigates, Ready, Current, Orderly, succeed-Orderly}
use zephyrftp.Runner.Commands.{
  mirror-length, run_echo-Ready, run_open-Orderly, run_cd-Orderly, run_transfer-Orderly,
  print_entries-Orderly, run_rm-Orderly, run_mkdir-Orderly, run_mv-Orderly, run_mirror-Orderly,
}

module _ (w : Surroundings) where
  dispatch-Orderly :
      (t : ScriptCommandType) (c : ScriptCommand) (rest : ScriptRunner → ScriptRunner)
      (r : ScriptRunner)
      → c.type ≡ t
      → fits t c.args ≡ true
      → Ready r
      → Current r c
      → Orderly (rest (run_echo c r))
      → Orderly (dispatch w t c rest r)
  unfolding dispatch serves navigates
  dispatch-Orderly ScriptCommandType.open_site c rest r t h ready current o =
      run_open-Orderly c r ready current w (ground arith) t
  dispatch-Orderly ScriptCommandType.cd c rest r t h ready current o =
      run_cd-Orderly c r ready current remote cd_done (ground arith) (λ b. rw t refl)
  dispatch-Orderly ScriptCommandType.lcd c rest r t h ready current o =
      run_cd-Orderly c r ready current local lcd_done (ground arith) (λ b. rw t refl)
  dispatch-Orderly ScriptCommandType.get c rest r t h ready current o =
      run_transfer-Orderly c r ready current remote local get (ground arith) (rw t refl)
  dispatch-Orderly ScriptCommandType.put c rest r t h ready current o =
      run_transfer-Orderly c r ready current local remote put (ground arith) (rw t refl)
  dispatch-Orderly ScriptCommandType.ls c rest r t h ready current o =
      print_entries-Orderly c r ready current remote (λ b. rw t refl)
  dispatch-Orderly ScriptCommandType.lls c rest r t h ready current o =
      print_entries-Orderly c r ready current local (λ b. rw t refl)
  dispatch-Orderly ScriptCommandType.rm c rest r t h ready current o =
      run_rm-Orderly c r ready current (ground arith) t
  dispatch-Orderly ScriptCommandType.mkdir c rest r t h ready current o =
      run_mkdir-Orderly c r ready current (ground arith) t
  dispatch-Orderly ScriptCommandType.mv c rest r t h ready current o =
      run_mv-Orderly c r ready current (ground arith) t
  dispatch-Orderly ScriptCommandType.mirror c rest r t h ready current o =
      run_mirror-Orderly c r ready current (mirror-length c.args h) t
  dispatch-Orderly ScriptCommandType.echo c rest r t h ready current o = o
  dispatch-Orderly ScriptCommandType.exit c rest r t h ready current o =
      succeed-Orderly r ready (inr (c, current, t))

  execute_from-Orderly :
      (cs : List ScriptCommand) (r : ScriptRunner)
      → Ready r
      → drop r.index r.commands ≡ cs
      → Orderly (execute_from w cs r)
  unfolding execute_from run_echo
  execute_from-Orderly [] r ready e =
      succeed-Orderly r ready (inl (get_elem?-drop_end r.commands r.index e))
  execute_from-Orderly (c ∷ cs) r ready e =
      let (current, behind) = get_elem?-drop r.commands r.index c cs e in
      rw (ready.1, execute_from)
        (dispatch-Orderly c.type c (λ r'. execute_from w cs (next_index r')) r refl
          (All-get Fits r.commands r.index c ready.0.1 current) ready current
          (execute_from-Orderly cs (next_index (run_echo c r)) (run_echo-Ready c r ready) behind))

  pub execute_next-Orderly : (r : ScriptRunner) → Ready r → Orderly (execute_next w r)
  unfolding execute_next
  execute_next-Orderly r ready = execute_from-Orderly (drop r.index r.commands) r ready refl

  pub advance-Orderly : (r : ScriptRunner) → Ready r → Orderly (advance w r)
  unfolding advance
  advance-Orderly r ready = execute_next-Orderly (next_index r) ready
