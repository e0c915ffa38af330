-- ===== src/Runner/Orderly.antt =====
-- What holds of cli/ScriptRunner.cpp between two signals.
use zephyrftp.Base.{
  ℕ, ◌≡◌, refl, ◌⊎◌, inl, inr, Bool, true, false, ◌||◌, List, [], ◌∷◌, some, none, get_elem?, All,
}
use zephyrftp.Script.Commands.{ScriptCommand, ScriptCommandType}
use zephyrftp.Script.Accepted.{Fits}
use zephyrftp.Runner.State.{
  Arrival, local_ready, remote_ready, opened, cd_done, lcd_done, mirror_local, mirror_remote,
  FileOp, rm, mkdir, mv, Transfer, get, put, Wait, navigation, file_operation, existence, addition,
  transfer, listing, comparison, copying, deletion, RunError, Action, exited, ScriptRunner, await,
  fail, succeed,
}

-- The exit codes that were emitted, the newest first.
unfoldable pub exit_codes : List Action → List ℕ
exit_codes [] = []
exit_codes (exited n ∷ actions) = n ∷ exit_codes actions
exit_codes (a ∷ actions) = exit_codes actions

-- operator== on ScriptCommandType
abbrev pub command_is : ScriptCommandType → ScriptCommandType → Bool
command_is ScriptCommandType.open_site ScriptCommandType.open_site = true
command_is ScriptCommandType.cd ScriptCommandType.cd = true
command_is ScriptCommandType.lcd ScriptCommandType.lcd = true
command_is ScriptCommandType.get ScriptCommandType.get = true
command_is ScriptCommandType.put ScriptCommandType.put = true
command_is ScriptCommandType.ls ScriptCommandType.ls = true
command_is ScriptCommandType.lls ScriptCommandType.lls = true
command_is ScriptCommandType.rm ScriptCommandType.rm = true
command_is ScriptCommandType.mkdir ScriptCommandType.mkdir = true
command_is ScriptCommandType.mv ScriptCommandType.mv = true
command_is ScriptCommandType.mirror ScriptCommandType.mirror = true
command_is ScriptCommandType.echo ScriptCommandType.echo = true
command_is ScriptCommandType.exit ScriptCommandType.exit = true
command_is _ _ = false

-- The commands of an operation and of a transfer.
abbrev pub operation_type : FileOp → ScriptCommandType
operation_type rm = ScriptCommandType.rm
operation_type mkdir = ScriptCommandType.mkdir
operation_type mv = ScriptCommandType.mv

abbrev pub transfer_type : Transfer → ScriptCommandType
transfer_type get = ScriptCommandType.get
transfer_type put = ScriptCommandType.put

-- Whether a navigation is one of a command's; before the first command the panes are waited for.
unfoldable pub navigates : Arrival → ScriptCommandType → Bool
navigates local_ready t = true
navigates remote_ready t = true
navigates opened t = command_is ScriptCommandType.open_site t
navigates cd_done t = command_is ScriptCommandType.cd t
navigates lcd_done t = command_is ScriptCommandType.lcd t
navigates (mirror_local to d) t = command_is ScriptCommandType.mirror t
navigates (mirror_remote d) t = command_is ScriptCommandType.mirror t

-- Whether a connection is one of a command's.
unfoldable pub serves : Wait → ScriptCommandType → Bool
unfolding navigates
serves (navigation p b a) t = navigates a t
serves (file_operation b op) t = command_is (operation_type op) t
serves (existence b path id) t = command_is ScriptCommandType.rm t
serves (addition way) t = command_is (transfer_type way) t
serves (transfer id way) t = command_is (transfer_type way) t
serves (listing b) t = command_is ScriptCommandType.ls t || command_is ScriptCommandType.lls t
serves (comparison d) t = command_is ScriptCommandType.mirror t
serves (copying pending deleted) t = command_is ScriptCommandType.mirror t
serves (deletion b n) t = command_is ScriptCommandType.mirror t

-- No argument was missing, and none will be.
abbrev pub Sound : ScriptRunner → Type 0
Sound r = (r.crashed ≡ false) × All Fits r.commands

-- Nothing is waited for, and the script has not ended.
abbrev pub Ready : ScriptRunner → Type 0
Ready r = Sound r × (r.finished ≡ false) × (r.waits ≡ []) × (exit_codes r.log ≡ [])

abbrev pub Current : ScriptRunner → ScriptCommand → Type 0
Current r c = get_elem? r.commands r.index ≡ some c

-- One connection is there, and it is the current command's.
abbrev pub Waiting : ScriptRunner → Type 0
Waiting r =
    (w : Wait) × (c : ScriptCommand) × (r.waits ≡ w ∷ [])
    × Current r c
    × (serves w c.type ≡ true)
    × (r.finished ≡ false)
    × (exit_codes r.log ≡ [])

-- The script has come to its end or to an exit.
abbrev pub AtEnd : ScriptRunner → Type 0
AtEnd r =
    (get_elem? r.commands r.index ≡ none)
    ⊎ ((c : ScriptCommand) × Current r c × (c.type ≡ ScriptCommandType.exit))

-- Exactly one exit code was emitted: 0 at the end, 2 in a command that is not carried out.
abbrev pub Ended : ScriptRunner → Type 0
Ended r =
    (r.finished ≡ true)
    × (r.waits ≡ [])
    × (((exit_codes r.log ≡ 0 ∷ []) × AtEnd r)
        ⊎ ((exit_codes r.log ≡ 2 ∷ []) × ((c : ScriptCommand) × Current r c)))

abbrev pub Orderly : ScriptRunner → Type 0
Orderly r = Sound r × (Waiting r ⊎ Ended r)

pub await-Orderly :
    (w : Wait) (c : ScriptCommand) (r : ScriptRunner)
    → Ready r
    → Current r c
    → serves w c.type ≡ true
    → Orderly (await w r)
await-Orderly w c r (sound, running, quiet, silent) current s =
    (sound, inl (w, c, rw quiet refl, current, s, running, silent))

pub fail-Orderly :
    (e : RunError) (c : ScriptCommand) (r : ScriptRunner)
    → Ready r
    → Current r c
    → Orderly (fail e r)
unfolding fail exit_codes
fail-Orderly e c r (sound, running, quiet, silent) current =
    rw running (sound, inr (refl, quiet, inr (rw silent refl, (c, current))))

pub succeed-Orderly : (r : ScriptRunner) → Ready r → AtEnd r → Orderly (succeed r)
unfolding succeed exit_codes
succeed-Orderly r (sound, running, quiet, silent) end =
    rw running (sound, inr (refl, quiet, inl (rw silent refl, end)))
