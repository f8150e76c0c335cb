-- ===== src/Tests/Watching.antt =====
-- The watcher: two writes in quick succession, one reload, a stop that comes when a function of the timer was
-- started, and a reload that finds no file.
use eterrain_tf_upload.Base.{
  ◌≡◌, ◌≤◌, ◌++◌, Bool, true, false, some, none, List, [], ◌∷◌, refl, arith, inl,
}
use eterrain_tf_upload.Text.{codes}
use eterrain_tf_upload.Errors.{ok, err, foreign, Error}
use eterrain_tf_upload.Uuid.{two_uuids}
use eterrain_tf_upload.Auth.FileStore.{load_from_file, validate_credentials}
use eterrain_tf_upload.Auth.FileStore.Watch.{
  stopping, stop, Op, Event, changed, expired, loaded, Watcher, on_event, is_reload_event, change,
  expiry, reloading, Runs, ends, next,
}
use eterrain_tf_upload.Auth.FileStore.Watch.Debounce.{Debounced, Runs-Debounced}
use eterrain_tf_upload.Auth.FileStore.Watch.End.{Remains, loads, expiries, Runs-end}
use eterrain_tf_upload.Auth.FileStore.Watch.Outage.{Runs-outage}
use eterrain_tf_upload.Tests.Access.{file, credentials, compare_hash}

abbrev write : Op
write = record { create = false; write = true; remove = false; rename = false; chmod = false }

abbrev quiet : Watcher Bool
quiet = record { credentials = credentials; deadline = none; started = 0; watching = true }

-- Half a second after the second write
abbrev due : Watcher Bool
due = record quiet { started = 1 }

due-Runs :
    (end : Watcher Bool) (es : List Event)
    → Runs two_uuids end due es
    → Runs two_uuids end quiet (changed write 0 ∷ changed write 300 ∷ expired 900 ∷ es)
unfolding on_event is_reload_event
due-Runs end es later =
    next quiet (record quiet { deadline = some 500 }) _ _ (change write 0 refl refl)
      (next (record quiet { deadline = some 500 }) (record quiet { deadline = some 800 }) _ _
        (change write 300 refl refl)
        (next (record quiet { deadline = some 800 }) due _ _
          (expiry 900 800 refl (omega arith) refl) later))

abbrev reloaded : Watcher Bool
reloaded = record quiet { credentials = (load_from_file two_uuids (ok file) credentials).0 }

abbrev events : List Event
events = changed write 0 ∷ changed write 300 ∷ expired 900 ∷ loaded (ok file) ∷ []

events-Runs : Runs two_uuids reloaded quiet events
events-Runs =
    due-Runs reloaded (loaded (ok file) ∷ [])
      (next due reloaded _ [] (reloading (ok file) 0 refl refl) (ends reloaded refl))

Runs-Debounced_example : Debounced none 0 events
Runs-Debounced_example = Runs-Debounced two_uuids events quiet reloaded refl refl events-Runs

abbrev stopped : Watcher Bool
stopped = record due { watching = false }

abbrev reloaded_late : Watcher Bool
reloaded_late = record reloaded { watching = false }

-- The load comes after the stop.
stop-Runs :
    Runs two_uuids reloaded_late quiet
      ((changed write 0 ∷ changed write 300 ∷ expired 900 ∷ []) ++ stop ∷ loaded (ok file) ∷ [])
stop-Runs = due-Runs reloaded_late (stop ∷ loaded (ok file) ∷ []) (
    next due stopped stop (loaded (ok file) ∷ []) (stopping refl refl) (
      next stopped reloaded_late (loaded (ok file)) [] (reloading (ok file) 0 refl refl)
        (ends reloaded_late refl)))

Runs-end_example :
    Remains two_uuids stop (loaded (ok file) ∷ [])
    × (loads
          ((changed write 0 ∷ changed write 300 ∷ expired 900 ∷ []) ++ stop ∷ loaded (ok file) ∷ [])
        ≤ expiries (
            (changed write 0 ∷ changed write 300 ∷ expired 900 ∷ [])
            ++ stop ∷ loaded (ok file) ∷ []))
Runs-end_example =
    Runs-end two_uuids reloaded_late quiet (changed write 0 ∷ changed write 300 ∷ expired 900 ∷ [])
      (loaded (ok file) ∷ []) stop refl (inl refl) stop-Runs

abbrev no_file : Error
no_file = foreign (codes "no such file")

abbrev without_keys : Watcher Bool
without_keys = record due {
  credentials = (load_from_file two_uuids (err no_file) credentials).0;
  started = 0;
}

outage-Runs :
    Runs two_uuids without_keys quiet
      ((changed write 0 ∷ changed write 300 ∷ expired 900 ∷ []) ++ loaded (err no_file) ∷ [])
outage-Runs =
    due-Runs without_keys (loaded (err no_file) ∷ [])
      (next due without_keys _ [] (reloading (err no_file) 0 refl refl) (ends without_keys refl))

Runs-outage_example :
    validate_credentials ⦃uuid_eq = two_uuids.uuid_eq⦄ compare_hash true
      (codes "first")
      without_keys.credentials
    ≡ (false, none)
Runs-outage_example =
    Runs-outage two_uuids compare_hash without_keys quiet
      (changed write 0 ∷ changed write 300 ∷ expired 900 ∷ []) [] no_file true (codes "first") refl
      outage-Runs
