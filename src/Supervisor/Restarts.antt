-- ===== src/Supervisor/Restarts.antt =====
-- The restart of the remote-control servers, supervisor.py: `_remote_control_gave_up`,
-- `_restart_after_backoff`, and the health check of `run_supervisor` over the servers.
-- The operating system answers as a function of what was done before; a delay is a number of ticks.
use loony_dev.Prelude.{
  ◌+◌, [], ◌∷◌, ◌+◌, [], ◌∷◌, ◌++◌, ℤ, leb, ltb, ◌*◌, Option, Bool, ℕ, List, Text, zero, suc, none,
  some, true, false, if◌then◌else◌,
}
use loony_dev.Prelude.Dictionary.{Dict, insert, remove}

pub data Status : Type 0 where
  running : Status
  restarting : Status
  errored : Status

-- What the health check does for a repository's server.
pub data Effect : Type 0 where
  remove_pid_file : Text → Effect
  remove_connection_file : Text → Effect
  write_connection_file : Text → Status → Effect
  sleep : ℕ → Effect
  launch : Text → Effect

abbrev pub Effects : Type 0
Effects = List Effect

pub record RemoteControl : Type 0 where
  pub restart_count : ℕ

pub record System : Type 0 where
  pub exitcode : Effects → Text → Option ℤ
  pub graceful_shutdown : Effects → Bool
  pub shutdown_requested : Effects → Bool
  pub launches : Effects → Text → Bool

pub record Settings : Type 0 where
  pub min_restart_delay : ℕ
  pub max_restart_delay : ℕ
  pub max_restart_retries : ℕ

abbrev pub Servers : Type 0
Servers = Dict RemoteControl × Effects

unfoldable pub remote_control_gave_up : ℕ → ℕ → Bool
remote_control_gave_up restart_count max_retries = leb max_retries restart_count

-- `min_restart_delay * 2 ** restart_count`
unfoldable pub doubled : ℕ → ℕ → ℕ
doubled delay zero = delay
doubled delay (suc n) = doubled (delay * 2) n

unfoldable pub restart_delay : Settings → ℕ → ℕ
unfolding doubled
restart_delay cfg n =
    let delay = doubled cfg.min_restart_delay n in
    if ltb cfg.max_restart_delay delay then cfg.max_restart_delay else delay

module _ (os : System) (cfg : Settings) where
  -- `_restart_after_backoff`, with `none` for a delay that was cut short or a failed launch.
  unfoldable pub restart_after_backoff :
      Text → RemoteControl → Effects → Option RemoteControl × Effects
  unfolding restart_delay
  restart_after_backoff repo rcp fx =
      let slept = fx ++ sleep (restart_delay cfg rcp.restart_count) ∷ [] in
      if os.shutdown_requested slept
      then (none, slept)
      else if os.launches slept repo
      then (some (record { restart_count = rcp.restart_count + 1 }), slept ++ launch repo ∷ [])
      else (none, slept ++ launch repo ∷ [])

  -- The new record is stored unless a shutdown came meanwhile.
  unfoldable pub store : Text → Dict RemoteControl → Option RemoteControl × Effects → Servers × Bool
  store repo controls (none, fx) = ((controls, fx), os.shutdown_requested fx)
  store repo controls (some rcp, fx) =
      if os.shutdown_requested fx
      then ((controls, fx), true)
      else ((insert repo rcp controls, fx), false)

  unfoldable pub restart : Text → RemoteControl → Servers → Servers × Bool
  unfolding restart_after_backoff store
  restart repo rcp (controls, fx) =
      store repo controls
        (restart_after_backoff repo rcp (fx ++ write_connection_file repo restarting ∷ []))

  -- A server whose process has ended, outside a graceful shutdown.
  unfoldable pub on_crash : Text → RemoteControl → Servers → Servers × Bool
  unfolding remote_control_gave_up restart
  on_crash repo rcp (controls, fx) =
      let fx' = fx ++ remove_pid_file repo ∷ [] in
      if remote_control_gave_up rcp.restart_count cfg.max_restart_retries
      then ((remove repo controls, fx' ++ write_connection_file repo errored ∷ []), false)
      else restart repo rcp (controls, fx')

  -- One iteration of the loop, and whether it breaks.
  unfoldable pub check_server : Text → RemoteControl → Servers → Servers × Bool
  unfolding on_crash
  check_server repo rcp (controls, fx) = elim (os.exitcode fx repo) [
    | none ↦ ((controls, fx), false)
    | some rc ↦
        if os.graceful_shutdown fx
        then (
          (remove repo controls, fx ++ remove_pid_file repo ∷ remove_connection_file repo ∷ []),
          false,
        )
        else on_crash repo rcp (controls, fx)
  ]

  unfoldable pub check_items : Dict RemoteControl → Servers → Servers
  unfolding check_server
  check_items [] servers = servers
  check_items ((repo, rcp) ∷ items) servers =
      let (after, broken) = check_server repo rcp servers in
      let rest = check_items items after in if broken then after else rest

  -- The health check of the servers, over the items of the map at its start.
  unfoldable pub check_remote_controls : Servers → Servers
  unfolding check_items
  check_remote_controls (controls, fx) = check_items controls (controls, fx)
