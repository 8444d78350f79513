-- ===== src/Examples/Leases.antt =====
-- The theorems on leases, at concrete leases.
use mathlib.Core.Option.{some-injective}
use std.Path.{subst}
use loony_dev.Prelude.Values.{get, get_default, seconds}
use loony_dev.Tasks.Kinds.{issue_key}
use loony_dev.Prelude.{
  text_eq, ◌⊎◌, ℤ, pos, ◌-ℤ◌, leb_ℤ, true, false, [], none, some, Text, ◌≡◌, ◌≢◌, refl, inl, sym,
  ◌∙◌, arith,
}
use loony_dev.Prelude.Dictionary.{Dict, lookup}
use loony_dev.Prelude.Values.{end}
use loony_dev.Lease.Staleness.{
  Scene, PipelineLease, delivered, process_lookup_error, holder_bot, holder_drive,
  default_stale_after, is_text, pid_alive,
}
use loony_dev.Lease.Acquire.{
  still_ours, time_eq, acquire_pipeline_lease, release_pipeline_lease, read_pipeline_lease,
  check_fence, attempts,
}
use loony_dev.Lease.Exclusion.{
  IsLive, written, acquire_pipeline_lease-own, acquire_pipeline_lease-IsLive,
  acquire_pipeline_lease_recovers,
}
use loony_dev.Lease.Release.{check_fence-acquire_pipeline_lease, release_pipeline_lease_foreign}
use loony_dev.Lease.Window.{worker_setting, to_float, heartbeat_stale_after_seconds, turn_cap}
use loony_dev.Examples.Samples.{drive_lease, scene_with}

abbrev pub key : Text
key = issue_key 1

abbrev pub scene : Scene
scene = scene_with drive_lease delivered

abbrev dead_scene : Scene
dead_scene = scene_with drive_lease process_lookup_error

abbrev pub taken : Dict Text
taken = (acquire_pipeline_lease scene default_stale_after none key holder_drive (pos 7) []).0

pub acquired :
    (acquire_pipeline_lease scene default_stale_after none key holder_drive (pos 7) []).1 ≡ true
unfolding acquire_pipeline_lease attempts lookup
acquired = refl

pub read_taken :
    read_pipeline_lease scene.py taken key ≡ some (written holder_drive (pos 7) key scene.now)
read_taken =
    acquire_pipeline_lease-own scene default_stale_after none key holder_drive (pos 7) [] refl
      acquired

pub drive-IsLive :
    (window : ℤ)
    → IsLive scene default_stale_after (some window) (written holder_drive (pos 7) key (pos 1000))
unfolding pid_alive is_text ◌-ℤ◌ text_eq
drive-IsLive window = record {
  alive = refl;
  young = λ started e.
      subst (λ s. leb_ℤ default_stale_after (scene.now -ℤ s) ≡ false)
        (some-injective (pos 1000) started e) refl;
  beating = λ w e. inl refl;
}

IsLive_example :
    acquire_pipeline_lease scene default_stale_after (some (pos 10)) key holder_bot (pos 8) taken
    ≡ (taken, false)
IsLive_example =
    acquire_pipeline_lease-IsLive scene default_stale_after (some (pos 10)) key holder_bot (pos 8)
      taken (written holder_drive (pos 7) key (pos 1000)) read_taken (drive-IsLive (pos 10))

all_dead :
    (lease : PipelineLease)
    → read_pipeline_lease dead_scene.py taken key ≡ some lease
    → pid_alive dead_scene.kill lease.pid ≡ false
unfolding pid_alive
all_dead lease found =
    subst (λ l. pid_alive dead_scene.kill l.pid ≡ false)
      (some-injective _ lease (sym read_taken ∙ found)) refl

recovers_example :
    (acquire_pipeline_lease dead_scene default_stale_after none key holder_bot (pos 8) taken).1
    ≡ true
recovers_example =
    acquire_pipeline_lease_recovers dead_scene default_stale_after none key holder_bot (pos 8) taken
      all_dead

fence_example : check_fence scene.py (pos 6) (some (pos 1000)) taken key ≡ false
fence_example =
    check_fence-acquire_pipeline_lease scene default_stale_after none key holder_drive (pos 7)
      (pos 6) (pos 1000) [] refl acquired (inl λ same. ground arith)

own_fence : check_fence scene.py (pos 7) (some (pos 1000)) taken key ≡ true
unfolding check_fence still_ours time_eq
own_fence = rw (check_fence, read_taken) refl

foreign :
    (lease : PipelineLease)
    → read_pipeline_lease scene.py taken key ≡ some lease
    → (is_text lease.holder holder_bot ≡ false) ⊎ (lease.started_at ≢ some (pos 1000))
unfolding is_text text_eq
foreign lease found =
    subst (λ l. (is_text l.holder holder_bot ≡ false) ⊎ (l.started_at ≢ some (pos 1000)))
      (some-injective _ lease (sym read_taken ∙ found)) (inl refl)

foreign_example :
    release_pipeline_lease scene.py key (some holder_bot) (some (pos 1000)) taken ≡ (taken, false)
foreign_example = release_pipeline_lease_foreign scene.py key holder_bot (pos 1000) taken foreign

window : heartbeat_stale_after_seconds scene.py end ≡ some (pos 3600000000)
unfolding heartbeat_stale_after_seconds turn_cap worker_setting to_float get get_default seconds
    text_eq
window = refl
