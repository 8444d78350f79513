-- ===== src/Supervisor/Budget.antt =====
-- The budget of restarts that a remote-control server has.
use loony_dev.Prelude.{
  arith, leb, ◌<◌, none, some, ◌++◌, Option-cases, inr, inl, text_eq, Option, Bool-cases, All, Text,
  none, some, [], ◌∷◌, ◌≤◌,
}
use loony_dev.Prelude.Dictionary.{Dict, insert, remove}
use loony_dev.Supervisor.Restarts.{
  System, Settings, RemoteControl, Servers, Effects, remove_pid_file, write_connection_file,
  restarting, sleep, remote_control_gave_up, restart_after_backoff, store, restart, on_crash,
  restart_delay, check_server, check_items, check_remote_controls,
}

module _ (os : System) (cfg : Settings) where
  -- No server of the map has been restarted more often than the settings allow.
  unfoldable pub IsWithin : Dict RemoteControl → Type 0
  IsWithin controls = All (λ e. e.1.restart_count ≤ cfg.max_restart_retries) controls

  remove-IsWithin :
      (k : Text) (controls : Dict RemoteControl) → IsWithin controls → IsWithin (remove k controls)
  unfolding IsWithin remove
  remove-IsWithin k [] h = tt
  remove-IsWithin k ((j, rcp) ∷ m) (here, rest) = elim (Bool-cases (text_eq j k)) [
    | inl e ↦ rw (remove, e) (remove-IsWithin k m rest)
    | inr e ↦ rw (remove, e) (here, remove-IsWithin k m rest)
  ]

  insert-IsWithin :
      (k : Text) (rcp : RemoteControl) (controls : Dict RemoteControl)
      → rcp.restart_count ≤ cfg.max_restart_retries
      → IsWithin controls
      → IsWithin (insert k rcp controls)
  unfolding IsWithin insert
  insert-IsWithin k rcp [] new h = (new, tt)
  insert-IsWithin k rcp ((j, old) ∷ m) new (here, rest) = elim (Bool-cases (text_eq j k)) [
    | inl e ↦ rw (insert, e) (new, rest)
    | inr e ↦ rw (insert, e) (here, insert-IsWithin k rcp m new rest)
  ]

  -- A server that was just launched is within its budget.
  IsNew : Option RemoteControl → Type 0
  IsNew none = Unit
  IsNew (some rcp) = rcp.restart_count ≤ cfg.max_restart_retries

  store-IsWithin :
      (repo : Text) (controls : Dict RemoteControl) (r : Option RemoteControl × Effects)
      → IsNew r.0
      → IsWithin controls
      → IsWithin ((store os cfg repo controls r).0.0)
  unfolding store IsNew
  store-IsWithin repo controls (none, fx) new h = h
  store-IsWithin repo controls (some rcp, fx) new h = elim (Bool-cases (os.shutdown_requested fx)) [
    | inl e ↦ rw (e) h
    | inr e ↦ rw (e) (insert-IsWithin repo rcp controls new h)
  ]

  restart_after_backoff-IsNew :
      (repo : Text) (rcp : RemoteControl) (fx : Effects)
      → rcp.restart_count < cfg.max_restart_retries
      → IsNew ((restart_after_backoff os cfg repo rcp fx).0)
  unfolding restart_after_backoff IsNew
  restart_after_backoff-IsNew repo rcp fx lt =
      let slept = fx ++ sleep (restart_delay cfg rcp.restart_count) ∷ [] in
      elim (Bool-cases (os.shutdown_requested slept)) [
        | inl e ↦ rw (e) tt
        | inr e ↦ elim (Bool-cases (os.launches slept repo)) [
          | inl k ↦ rw (e, k) (omega (arith, lt))
          | inr k ↦ rw (e, k) tt
        ]
      ]

  on_crash-IsWithin :
      (repo : Text) (rcp : RemoteControl) (controls : Dict RemoteControl) (fx : Effects)
      → IsWithin controls
      → IsWithin ((on_crash os cfg repo rcp (controls, fx)).0.0)
  unfolding on_crash restart remote_control_gave_up
  on_crash-IsWithin repo rcp controls fx h =
      elim (Bool-cases (leb cfg.max_restart_retries rcp.restart_count)) [
        | inl e ↦ rw (e) (remove-IsWithin repo controls h)
        | inr e ↦ rw (e) (
            store-IsWithin repo controls
              (restart_after_backoff os cfg repo rcp
                ((fx ++ remove_pid_file repo ∷ []) ++ write_connection_file repo restarting ∷ []))
              (restart_after_backoff-IsNew repo rcp
                ((fx ++ remove_pid_file repo ∷ []) ++ write_connection_file repo restarting ∷ [])
                (ground (arith, e)))
              h)
      ]

  check_server-IsWithin :
      (repo : Text) (rcp : RemoteControl) (controls : Dict RemoteControl) (fx : Effects)
      → IsWithin controls
      → IsWithin ((check_server os cfg repo rcp (controls, fx)).0.0)
  unfolding check_server
  check_server-IsWithin repo rcp controls fx h = elim (Option-cases (os.exitcode fx repo)) [
    | inl e ↦ rw (check_server, e) h
    | inr (rc, e) ↦ elim (Bool-cases (os.graceful_shutdown fx)) [
      | inl k ↦ rw (check_server, e, k) (remove-IsWithin repo controls h)
      | inr k ↦ rw (check_server, e, k) (on_crash-IsWithin repo rcp controls fx h)
    ]
  ]

  check_items-IsWithin :
      (items : Dict RemoteControl) (servers : Servers)
      → IsWithin servers.0
      → IsWithin ((check_items os cfg items servers).0)
  unfolding check_items
  check_items-IsWithin [] servers h = h
  check_items-IsWithin ((repo, rcp) ∷ items) (controls, fx) h =
      let after = check_server-IsWithin repo rcp controls fx h in
      elim (Bool-cases ((check_server os cfg repo rcp (controls, fx)).1)) [
        | inl e ↦ rw (e) after
        | inr e ↦
            rw (e)
              (check_items-IsWithin items ((check_server os cfg repo rcp (controls, fx)).0) after)
      ]

  -- No health check restarts a server beyond its budget: if no server of the map has been restarted
  -- more than max_restart_retries times before the check, none has after it.
  pub check_remote_controls-IsWithin :
      (controls : Dict RemoteControl) (fx : Effects)
      → IsWithin controls
      → IsWithin ((check_remote_controls os cfg (controls, fx)).0)
  unfolding check_remote_controls
  check_remote_controls-IsWithin controls fx h = check_items-IsWithin controls (controls, fx) h
