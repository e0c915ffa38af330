-- ===== src/Runner/Tests.antt =====
-- Runs of scripts, with the ASCII part of QChar::isSpace and QString::toLower.
use zephyrftp.Base.{ℕ, ◌≡◌, refl, Bool, true, false, List, [], ◌∷◌, none, ◌==◌}
use zephyrftp.Base.Text.{Text, codes, text_eq, starts_with, ends_with}
use zephyrftp.Paths.{join_path}
use zephyrftp.Script.Tokens.{tokenize_from, tokenize_line}
use zephyrftp.Script.Commands.{
  ScriptCommandType, ScriptCommand, find_command, lookup_command, join_tokens, parse_arguments,
  parse_command, parse_tokens, split_lines, parse_line, parse_lines, parse_script,
}
use zephyrftp.Compare.Comparer.{CompareEntry, CompareStatus, only_left, only_right}
use zephyrftp.Compare.Sync
use zephyrftp.Compare.Sync.{left, status_eq, only_on}
use zephyrftp.Queue.State.{new_manager}
use zephyrftp.Queue.Runs
use zephyrftp.Runner.State.{
  local, remote, listing, copying, deletion, Signal, directory_changed, connection_failed,
  directory_listed, exists_checked, printed, exited, navigate_to, list_directory, check_exists,
  delete_entry, copy_selected, Surroundings, new_runner, await, fail, succeed,
}
use zephyrftp.Runner.Operations.{
  pane_of, resolve_path, with_argument, attach_backend, needs_secret, open_site, open_match,
  run_open, run_cd, run_transfer, print_entries, check_path_exists, run_rm, run_mkdir, run_mv,
  run_echo, run_mirror, dispatch, execute_from, execute_next, advance, run_script,
}
use zephyrftp.Runner.Signals.{
  same_pane, add_id, remove_id, settle_one, settle_copy, heard, delete_all, delete_groups,
  run_mirror_deletes, to_copy, to_delete, on_mirror_compare_finished, arrive, print_all, checked,
  transferred, settled, deliver, see, receive, run,
}
use zephyrftp.Runner.Orderly.{Orderly}
use zephyrftp.Runner.Outcome.{accepted_script-Orderly}
use zephyrftp.Runner.Barriers.{Deletes, run_mirror_deletes-Deletes}
use zephyrftp.Runner.Hangs.{
  Stuck, lists, adds_item, failed_listing_hangs, mirror_of_directories_hangs,
}

abbrev plain_space : ℕ → Bool
plain_space c = c == 32

abbrev unchanged : Text → Text
unchanged t = t

-- No site is saved, and sorting leaves the order.
abbrev bare : Surroundings
bare = record { sites = []; same_name = text_eq; sort = λ less es. es; secret_of = λ id. none }

abbrev removal_lines : Text
removal_lines = codes "cd sub\necho done\nrm old\nexit"

abbrev removal : List ScriptCommand
removal =
    record {
      type = ScriptCommandType.cd;
      args = codes "sub" ∷ [];
      line_number = 1;
      raw_line = codes "cd sub";
    }
    ∷ (record {
      type = ScriptCommandType.echo;
      args = codes "done" ∷ [];
      line_number = 2;
      raw_line = codes "echo done";
    }
        ∷ (record {
          type = ScriptCommandType.rm;
          args = codes "old" ∷ [];
          line_number = 3;
          raw_line = codes "rm old";
        }
            ∷ (record {
              type = ScriptCommandType.exit;
              args = [];
              line_number = 4;
              raw_line = codes "exit";
            }
                ∷ [])))

abbrev local_home : Text
local_home = codes "/home"

abbrev remote_home : Text
remote_home = codes "/srv"

-- Both panes are ready, the directory is changed, the file is there, and it is deleted; the newest
-- signal comes first.
abbrev removal_signals : List Signal
removal_signals =
    directory_listed 1 []
    ∷ (exists_checked 1 true false 1
        ∷ (directory_changed remote (codes "/srv/sub")
            ∷ (directory_changed remote remote_home ∷ (directory_changed local local_home ∷ []))))

-- The newest action comes first.
removal_runs :
    (run bare removal_signals (run_script removal (new_runner local_home remote_home))).log
    ≡ exited 0
      ∷ (delete_entry 1 (codes "/srv/sub/old") false
          ∷ (check_exists 1 (codes "/srv/sub/old") 1
              ∷ (printed (codes "done") ∷ (navigate_to remote (codes "/srv/sub") ∷ []))))
unfolding fail succeed new_runner text_eq starts_with ends_with join_path status_eq pane_of
    resolve_path with_argument attach_backend needs_secret open_site open_match run_open run_cd
    run_transfer print_entries check_path_exists run_rm run_mkdir run_mv run_echo run_mirror
    dispatch execute_from execute_next advance run_script same_pane add_id remove_id settle_one
    settle_copy heard delete_all delete_groups run_mirror_deletes to_copy to_delete
    on_mirror_compare_finished arrive print_all checked transferred settled deliver see receive run
removal_runs = refl

accepted_script-Orderly_example :
    Orderly (run bare removal_signals (run_script removal (new_runner local_home remote_home)))
unfolding parse_script parse_lines parse_line parse_tokens parse_command parse_arguments
    lookup_command find_command join_tokens split_lines tokenize_line tokenize_from text_eq
    starts_with
accepted_script-Orderly_example =
    accepted_script-Orderly bare plain_space unchanged unchanged removal_lines local_home
      remote_home removal removal_signals refl

abbrev entry_at : Text → Bool → CompareStatus → CompareEntry
entry_at path is_dir status = record {
  relative_path = path;
  is_dir = is_dir;
  status = status;
  left_size = none;
  right_size = none;
  left_modified = none;
  right_modified = none;
}

abbrev extra_pair : List CompareEntry
extra_pair = entry_at (codes "d") true only_right ∷ (entry_at (codes "d/f") false only_right ∷ [])

run_mirror_deletes-Deletes_example :
    Deletes 2
      (await (deletion 1 2) (new_runner local_home remote_home))
      (run_mirror_deletes bare extra_pair (new_runner local_home remote_home))
unfolding to_delete status_eq new_runner
run_mirror_deletes-Deletes_example =
    run_mirror_deletes-Deletes bare (λ es. refl) true extra_pair
      (entry_at (codes "d") true only_right) (entry_at (codes "d/f") false only_right ∷ [])
      (new_runner local_home remote_home) refl

failed_listing_hangs_example : Stuck (listing 1) (list_directory 1 remote_home ∷ []) (
    run bare
      (connection_failed 1 (codes "No such directory: /srv") ∷ [])
      (print_entries remote (new_runner local_home remote_home)))
unfolding lists new_runner pane_of
failed_listing_hangs_example =
    failed_listing_hangs bare remote (new_runner local_home remote_home)
      (connection_failed 1 (codes "No such directory: /srv") ∷ []) refl refl (refl, tt)

abbrev new_folder : CompareEntry
new_folder = entry_at (codes "photos") true only_left

mirror_of_directories_hangs_example :
    ((Sync.copy_selected left 0 1
        (new_folder ∷ [])
        (new_manager Runs.two_panes Runs.two_backends (codes "/tmp"))).items
      ≡ (new_manager Runs.two_panes Runs.two_backends (codes "/tmp")).items)
    × Stuck
        (copying [] (to_delete false (new_folder ∷ [])))
        (copy_selected (new_folder ∷ []) ∷ [])
        (run bare (directory_listed 1 [] ∷ []) (
          on_mirror_compare_finished bare
            (new_folder ∷ [])
            false
            (new_runner local_home remote_home)))
unfolding to_copy status_eq adds_item new_runner
mirror_of_directories_hangs_example =
    mirror_of_directories_hangs bare false (new_folder ∷ []) new_folder []
      (new_runner local_home remote_home)
      (new_manager Runs.two_panes Runs.two_backends (codes "/tmp")) (directory_listed 1 [] ∷ [])
      refl (refl, tt) refl refl (refl, tt)
