-- ===== src/Runner/Commands.antt =====
-- The commands of cli/ScriptRunner.cpp, each from a state in which nothing is waited for.
use zephyrftp.Base.{
  ℕ, ◌<◌, ◌≡◌, refl, true, false, List, [], ◌∷◌, Option, some, none, length, get_elem?,
  get_elem?-some, keep, option-elim, arith, ◌==◌,
}
use zephyrftp.Base.Text.{Text}
use zephyrftp.Script.Commands.{ScriptCommand, ScriptCommandType}
use zephyrftp.Script.Accepted.{fits}
use zephyrftp.Sites.Store.{SavedSite, site_connection_request}
use zephyrftp.Runner.State.{
  PaneName, local, remote, Arrival, opened, mirror_local, mkdir, mv, Transfer, navigation,
  file_operation, existence, addition, listing, no_site, several_sites, no_password, navigate_to,
  enqueue, create_directory, rename_entry, ScriptRunner, Surroundings, act, await, fail,
}
use zephyrftp.Runner.Operations.{
  pane_of, resolve_path, watch, with_argument, attach_backend, needs_secret, open_site, open_match,
  run_open, run_cd, run_transfer, print_entries, check_path_exists, run_rm, run_mkdir, run_mv,
  run_echo, run_mirror,
}
use zephyrftp.Runner.Orderly.{
  exit_codes, serves, navigates, Ready, Current, Orderly, await-Orderly, fail-Orderly,
}

-- An argument that is there is read.
with_argument-Orderly :
    (i : ℕ) (c : ScriptCommand) (f : Text → ScriptRunner → ScriptRunner) (r : ScriptRunner)
    → i < length c.args
    → ((a : Text) → Orderly (f a r))
    → Orderly (with_argument i c f r)
unfolding with_argument
with_argument-Orderly i c f r h orderly =
    option-elim Orderly (get_elem? c.args i) _ _ (λ n. absurd (get_elem?-some c.args i h n))
      (λ a _. orderly a)

attach_backend-Orderly :
    (request : _) (secret : Text) (c : ScriptCommand) (r : ScriptRunner)
    → Ready r
    → Current r c
    → c.type ≡ ScriptCommandType.open_site
    → Orderly (attach_backend request secret r)
unfolding attach_backend exit_codes serves navigates
attach_backend-Orderly request secret c r ready current t =
    await-Orderly (navigation remote r.next_backend opened) c r ready current (rw t refl)

open_site-Orderly :
    (stored : Option Text) (c : ScriptCommand) (name : Text) (site : SavedSite) (r : ScriptRunner)
    → Ready r
    → Current r c
    → c.type ≡ ScriptCommandType.open_site
    → Orderly (open_site stored c name site r)
unfolding open_site
open_site-Orderly (some secret) c name site r ready current t =
    attach_backend-Orderly (site_connection_request site) secret c r ready current t
open_site-Orderly none c name site r ready current t =
    elim (needs_secret (site_connection_request site))
      as (λ b. Orderly (elim b [
        | true ↦ fail (no_password c.line_number name) r
        | false ↦ attach_backend (site_connection_request site) [] r
      ])) [
        | true ↦ fail-Orderly (no_password c.line_number name) c r ready current
        | false ↦ attach_backend-Orderly (site_connection_request site) [] c r ready current t
      ]

open_match-Orderly :
    (w : Surroundings) (c : ScriptCommand) (name : Text) (sites : List SavedSite) (r : ScriptRunner)
    → Ready r
    → Current r c
    → c.type ≡ ScriptCommandType.open_site
    → Orderly (open_match w c name sites r)
unfolding open_match
open_match-Orderly w c name [] r ready current t =
    fail-Orderly (no_site c.line_number name) c r ready current
open_match-Orderly w c name (site ∷ []) r ready current t =
    open_site-Orderly (w.secret_of site.id) c name site r ready current t
open_match-Orderly w c name (site ∷ other ∷ sites) r ready current t =
    fail-Orderly (several_sites c.line_number name) c r ready current

pub mirror-length : (args : List Text) → fits ScriptCommandType.mirror args ≡ true → 1 < length args
mirror-length [] h = ground arith
mirror-length (a ∷ []) h = ground arith
mirror-length (a ∷ b ∷ []) h = omega arith
mirror-length (a ∷ b ∷ flag ∷ []) h = omega arith
mirror-length (a ∷ b ∷ flag ∷ d ∷ args) h = ground arith

pub run_echo-Ready : (c : ScriptCommand) (r : ScriptRunner) → Ready r → Ready (run_echo c r)
unfolding run_echo exit_codes
run_echo-Ready c r ready = ready

module _ (c : ScriptCommand) (r : ScriptRunner) (ready : Ready r) (current : Current r c) where
  pub run_cd-Orderly :
      (p : PaneName) (arrival : Arrival)
      → 0 < length c.args
      → ((b : ℕ) → serves (navigation p b arrival) c.type ≡ true)
      → Orderly (run_cd p arrival c r)
  unfolding run_cd exit_codes
  run_cd-Orderly p arrival h s =
      with_argument-Orderly 0 c
        (λ path r'. act (navigate_to p (resolve_path (pane_of p r') path)) (watch p arrival r')) r h
        (λ path.
          await-Orderly (navigation p (pane_of p r).backend arrival) c r ready current
            (s (pane_of p r).backend))

  pub run_transfer-Orderly :
      (from to : PaneName) (t : Transfer)
      → 0 < length c.args
      → serves (addition t) c.type ≡ true
      → Orderly (run_transfer from to t c r)
  unfolding run_transfer exit_codes
  run_transfer-Orderly from to t h s =
      with_argument-Orderly 0 c (λ name r'. act (enqueue from to name) (await (addition t) r')) r h
        (λ name. await-Orderly (addition t) c r ready current s)

  pub print_entries-Orderly :
      (p : PaneName) → ((b : ℕ) → serves (listing b) c.type ≡ true) → Orderly (print_entries p r)
  unfolding print_entries exit_codes
  print_entries-Orderly p s =
      await-Orderly (listing (pane_of p r).backend) c r ready current (s (pane_of p r).backend)

  pub run_rm-Orderly : 0 < length c.args → c.type ≡ ScriptCommandType.rm → Orderly (run_rm c r)
  unfolding run_rm check_path_exists exit_codes serves navigates
  run_rm-Orderly h t =
      with_argument-Orderly 0 c
        (λ path r'. check_path_exists r'.remote_pane.backend (resolve_path r'.remote_pane path) r')
        r h
        (λ path.
          await-Orderly
            (existence r.remote_pane.backend (resolve_path r.remote_pane path) r.next_request_id) c
            r ready current (rw t refl))

  pub run_mkdir-Orderly :
      0 < length c.args → c.type ≡ ScriptCommandType.mkdir → Orderly (run_mkdir c r)
  unfolding run_mkdir exit_codes serves navigates
  run_mkdir-Orderly h t =
      with_argument-Orderly 0 c
        (λ path r'.
          act (create_directory r'.remote_pane.backend (resolve_path r'.remote_pane path))
            (await (file_operation r'.remote_pane.backend mkdir) r'))
        r h
        (λ path.
          await-Orderly (file_operation r.remote_pane.backend mkdir) c r ready current (rw t refl))

  pub run_mv-Orderly : 1 < length c.args → c.type ≡ ScriptCommandType.mv → Orderly (run_mv c r)
  unfolding run_mv exit_codes serves navigates
  run_mv-Orderly h t =
      with_argument-Orderly 0 c
        (λ old. with_argument 1 c (λ new r'.
          act
            (rename_entry r'.remote_pane.backend (resolve_path r'.remote_pane old)
              (resolve_path r'.remote_pane new))
            (await (file_operation r'.remote_pane.backend mv) r')))
        r (omega arith)
        (λ old.
          with_argument-Orderly 1 c
            (λ new r'.
              act
                (rename_entry r'.remote_pane.backend (resolve_path r'.remote_pane old)
                  (resolve_path r'.remote_pane new))
                (await (file_operation r'.remote_pane.backend mv) r'))
            r h
            (λ new.
              await-Orderly (file_operation r.remote_pane.backend mv) c r ready current
                (rw t refl)))

  pub run_mirror-Orderly :
      1 < length c.args → c.type ≡ ScriptCommandType.mirror → Orderly (run_mirror c r)
  unfolding run_mirror exit_codes serves navigates
  run_mirror-Orderly h t =
      with_argument-Orderly 0 c
        (λ from. with_argument 1 c (λ to r'.
          act (navigate_to local (resolve_path r'.local_pane from))
            (watch local (mirror_local (resolve_path r'.remote_pane to) (length c.args == 3)) r')))
        r (omega arith)
        (λ from.
          with_argument-Orderly 1 c
            (λ to r'.
              act (navigate_to local (resolve_path r'.local_pane from)) (
                watch local (mirror_local (resolve_path r'.remote_pane to) (length c.args == 3))
                  r'))
            r h
            (λ to.
              await-Orderly
                (navigation local (pane_of local r).backend
                  (mirror_local (resolve_path r.remote_pane to) (length c.args == 3)))
                c r ready current (rw t refl)))

  pub run_open-Orderly :
      (w : Surroundings)
      → 0 < length c.args
      → c.type ≡ ScriptCommandType.open_site
      → Orderly (run_open w c r)
  unfolding run_open
  run_open-Orderly w h t =
      with_argument-Orderly 0 c
        (λ name. open_match w c name (keep (λ (s : SavedSite). w.same_name s.name name) w.sites)) r
        h
        (λ name.
          open_match-Orderly w c name (keep (λ (s : SavedSite). w.same_name s.name name) w.sites) r
            ready current t)
