-- ===== src/Examples/Fleets.antt =====
-- Tests of the supervisor: the choice of repositories and the restart of servers.
use loony_dev.Prelude.{
  ◌↔◌, List, arith, refl, ◌≡◌, some, [], ◌∷◌, codes, Text, true, false, pos, text_eq, mem_text,
}
use loony_dev.Prelude.Dictionary.{Dict, insert, remove}
use loony_dev.Supervisor.Filters.{filter_repos}
use loony_dev.Supervisor.Selected.{IsSelected, filter_repos-IsSelected}
use loony_dev.Supervisor.Restarts.{
  System, Settings, RemoteControl, check_remote_controls, launch, sleep, remove_pid_file,
  write_connection_file, restarting, errored,
}
use loony_dev.Supervisor.Budget.{IsWithin, check_remote_controls-IsWithin}

abbrev repos : List Text
repos = codes "o/app" ∷ codes "o/docs" ∷ codes "p/app" ∷ []

selected : filter_repos text_eq repos (codes "app" ∷ []) (codes "p/app" ∷ []) ≡ codes "o/app" ∷ []
unfolding filter_repos text_eq
selected = refl

filter_example :
    (mem_text (codes "o/app") (filter_repos text_eq repos (codes "app" ∷ []) (codes "p/app" ∷ []))
      ≡ true)
    ↔ IsSelected text_eq repos (codes "app" ∷ []) (codes "p/app" ∷ []) (codes "o/app")
filter_example =
    filter_repos-IsSelected text_eq repos (codes "app" ∷ []) (codes "p/app" ∷ []) (codes "o/app")

-- Every server has crashed, and every launch succeeds.
abbrev crashing : System
crashing = record {
  exitcode = λ fx repo. some (pos 1);
  graceful_shutdown = λ fx. false;
  shutdown_requested = λ fx. false;
  launches = λ fx repo. true;
}

abbrev settings : Settings
settings = record { min_restart_delay = 5; max_restart_delay = 30; max_restart_retries = 3 }

abbrev servers : Dict RemoteControl
servers = (codes "a", record { restart_count = 2 }) ∷ (codes "b", record { restart_count = 3 }) ∷ []

restarted : check_remote_controls crashing settings (servers, []) ≡ (
  (codes "a", record { restart_count = 3 }) ∷ [],
  remove_pid_file (codes "a")
      ∷ write_connection_file (codes "a") restarting
      ∷ sleep 20
      ∷ launch (codes "a")
      ∷ remove_pid_file (codes "b")
      ∷ write_connection_file (codes "b") errored
      ∷ [],
)
unfolding check_remote_controls text_eq remove insert
restarted = refl

budget_example :
    IsWithin crashing settings ((check_remote_controls crashing settings (servers, [])).0)
unfolding IsWithin
budget_example =
    check_remote_controls-IsWithin crashing settings servers [] (omega arith, (omega arith, tt))
