-- ===== src/Runner/Operations.antt =====
-- cli/ScriptRunner.cpp. Every call that it makes stands last in its function, so that what the call
-- emits is a later signal.
use zephyrftp.Base.{
  ℕ, suc, Bool, true, false, List, [], ◌∷◌, Option, none, some, ◌==◌, length, get_elem?, drop, keep,
  if◌then◌else◌,
}
use zephyrftp.Base.Text.{Text, starts_with}
use zephyrftp.Paths.{join_path, slash}
use zephyrftp.Script.Commands.{ScriptCommand, ScriptCommandType}
use zephyrftp.Sites.Requests.{ConnectionRequest, over_sftp, over_ftp, password, public_key}
use zephyrftp.Sites.Store.{SavedSite, site_connection_request}
use zephyrftp.Runner.State.{
  PaneName, local, remote, ScriptPane, Arrival, local_ready, opened, cd_done, lcd_done,
  mirror_local, mkdir, mv, Transfer, get, put, navigation, file_operation, existence, addition,
  listing, no_site, several_sites, no_password, printed, attach, navigate_to, enqueue,
  list_directory, check_exists, create_directory, rename_entry, ScriptRunner, Surroundings, act,
  await, fail, succeed,
}

unfoldable pub pane_of : PaneName → ScriptRunner → ScriptPane
pane_of local r = r.local_pane
pane_of remote r = r.remote_pane

unfoldable pub resolve_path : ScriptPane → Text → Text
unfolding starts_with join_path
resolve_path pane path =
    if starts_with slash path then path else join_path pane.current_directory path

abbrev pub watch : PaneName → Arrival → ScriptRunner → ScriptRunner
watch p arrival r = await (navigation p (pane_of p r).backend arrival) r

-- cmd.args.at(i)
unfoldable pub with_argument :
    ℕ → ScriptCommand → (Text → ScriptRunner → ScriptRunner) → ScriptRunner → ScriptRunner
with_argument i c f r = elim (get_elem? c.args i) [
  | none ↦ record r { crashed = true }
  | some a ↦ f a r
]

-- the new backend for a request
unfoldable pub attach_backend : ConnectionRequest → Text → ScriptRunner → ScriptRunner
attach_backend request secret r = await (navigation remote r.next_backend opened) (record r {
  remote_pane = record r.remote_pane { backend = r.next_backend };
  next_backend = suc r.next_backend;
  log = attach r.next_backend request secret ∷ r.log;
})

-- A key needs no passphrase; everything else needs its password.
unfoldable pub needs_secret : ConnectionRequest → Bool
needs_secret (over_sftp creds) = elim creds.auth_method [ public_key ↦ false | password ↦ true ]
needs_secret (over_ftp p creds) = true

unfoldable pub open_site :
    Option Text → ScriptCommand → Text → SavedSite → ScriptRunner → ScriptRunner
unfolding attach_backend needs_secret fail site_connection_request
open_site (some secret) c name site r = attach_backend (site_connection_request site) secret r
open_site none c name site r = elim (needs_secret (site_connection_request site)) [
  | true ↦ fail (no_password c.line_number name) r
  | false ↦ attach_backend (site_connection_request site) [] r
]

unfoldable pub open_match :
    Surroundings → ScriptCommand → Text → List SavedSite → ScriptRunner → ScriptRunner
unfolding open_site fail
open_match w c name [] r = fail (no_site c.line_number name) r
open_match w c name (site ∷ []) r = open_site (w.secret_of site.id) c name site r
open_match w c name (site ∷ other ∷ sites) r = fail (several_sites c.line_number name) r

unfoldable pub run_open : Surroundings → ScriptCommand → ScriptRunner → ScriptRunner
unfolding with_argument open_match
run_open w c r =
    with_argument 0 c
      (λ name. open_match w c name (keep (λ (s : SavedSite). w.same_name s.name name) w.sites)) r

-- runCd and runLcd
unfoldable pub run_cd : PaneName → Arrival → ScriptCommand → ScriptRunner → ScriptRunner
unfolding with_argument resolve_path pane_of
run_cd p arrival c r =
    with_argument 0 c
      (λ path r'. act (navigate_to p (resolve_path (pane_of p r') path)) (watch p arrival r')) r

-- runGet and runPut
unfoldable pub run_transfer :
    PaneName → PaneName → Transfer → ScriptCommand → ScriptRunner → ScriptRunner
unfolding with_argument
run_transfer from to t c r =
    with_argument 0 c (λ name r'. act (enqueue from to name) (await (addition t) r')) r

-- printEntries, with runLs and runLls
unfoldable pub print_entries : PaneName → ScriptRunner → ScriptRunner
unfolding pane_of
print_entries p r =
    let pane = pane_of p r in
    act (list_directory pane.backend pane.current_directory) (await (listing pane.backend) r)

unfoldable pub check_path_exists : ℕ → Text → ScriptRunner → ScriptRunner
check_path_exists backend path r =
    let id = r.next_request_id in
    act (check_exists backend path id)
      (await (existence backend path id) (record r { next_request_id = suc id }))

unfoldable pub run_rm : ScriptCommand → ScriptRunner → ScriptRunner
unfolding with_argument resolve_path check_path_exists
run_rm c r =
    with_argument 0 c
      (λ path r'. check_path_exists r'.remote_pane.backend (resolve_path r'.remote_pane path) r') r

unfoldable pub run_mkdir : ScriptCommand → ScriptRunner → ScriptRunner
unfolding with_argument resolve_path
run_mkdir c r =
    with_argument 0 c
      (λ path r'.
        act (create_directory r'.remote_pane.backend (resolve_path r'.remote_pane path))
          (await (file_operation r'.remote_pane.backend mkdir) r'))
      r

unfoldable pub run_mv : ScriptCommand → ScriptRunner → ScriptRunner
unfolding with_argument resolve_path
run_mv c r =
    with_argument 0 c
      (λ old. with_argument 1 c (λ new r'.
        act
          (rename_entry r'.remote_pane.backend (resolve_path r'.remote_pane old)
            (resolve_path r'.remote_pane new))
          (await (file_operation r'.remote_pane.backend mv) r')))
      r

-- the line that echo prints: its arguments were joined by the parser
abbrev pub echoed : List Text → Text
echoed [] = []
echoed (line ∷ further) = line

unfoldable pub run_echo : ScriptCommand → ScriptRunner → ScriptRunner
run_echo c r = act (printed (echoed c.args)) r

unfoldable pub run_mirror : ScriptCommand → ScriptRunner → ScriptRunner
unfolding with_argument resolve_path pane_of
run_mirror c r =
    with_argument 0 c
      (λ from. with_argument 1 c (λ to r'.
        act (navigate_to local (resolve_path r'.local_pane from))
          (watch local (mirror_local (resolve_path r'.remote_pane to) (length c.args == 3)) r')))
      r

-- The switch of executeNext; `rest` is advance.
unfoldable pub dispatch :
    Surroundings
    → ScriptCommandType
    → ScriptCommand
    → (ScriptRunner → ScriptRunner)
    → ScriptRunner
    → ScriptRunner
unfolding run_open run_cd run_transfer print_entries run_rm run_mkdir run_mv run_echo run_mirror
    succeed
dispatch w ScriptCommandType.open_site c rest r = run_open w c r
dispatch w ScriptCommandType.cd c rest r = run_cd remote cd_done c r
dispatch w ScriptCommandType.lcd c rest r = run_cd local lcd_done c r
dispatch w ScriptCommandType.get c rest r = run_transfer remote local get c r
dispatch w ScriptCommandType.put c rest r = run_transfer local remote put c r
dispatch w ScriptCommandType.ls c rest r = print_entries remote r
dispatch w ScriptCommandType.lls c rest r = print_entries local r
dispatch w ScriptCommandType.rm c rest r = run_rm c r
dispatch w ScriptCommandType.mkdir c rest r = run_mkdir c r
dispatch w ScriptCommandType.mv c rest r = run_mv c r
dispatch w ScriptCommandType.mirror c rest r = run_mirror c r
dispatch w ScriptCommandType.echo c rest r = rest (run_echo c r)
dispatch w ScriptCommandType.exit c rest r = succeed r

abbrev pub next_index : ScriptRunner → ScriptRunner
next_index r = record r { index = suc r.index }

-- executeNext, where the commands from the index on are given
unfoldable pub execute_from : Surroundings → List ScriptCommand → ScriptRunner → ScriptRunner
unfolding dispatch succeed
execute_from w [] r = succeed r
execute_from w (c ∷ cs) r = elim r.finished [
  | true ↦ r
  | false ↦ dispatch w c.type c (λ r'. execute_from w cs (next_index r')) r
]

unfoldable pub execute_next : Surroundings → ScriptRunner → ScriptRunner
unfolding execute_from
execute_next w r = execute_from w (drop r.index r.commands) r

unfoldable pub advance : Surroundings → ScriptRunner → ScriptRunner
unfolding execute_next
advance w r = execute_next w (next_index r)

unfoldable pub run_script : List ScriptCommand → ScriptRunner → ScriptRunner
unfolding succeed pane_of
run_script [] r = succeed (record r { commands = []; index = 0 })
run_script (c ∷ cs) r = watch local local_ready (record r { commands = c ∷ cs; index = 0 })
