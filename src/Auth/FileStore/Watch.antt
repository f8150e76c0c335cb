-- ===== src/Auth/FileStore/Watch.antt =====
-- watchFile and Close of internal/auth/store.go: the loop over the events of fsnotify, and the timer that
-- reloads the file. Times are milliseconds. When the timer expires, its function is started on a goroutine
-- of its own; from then on Stop does nothing, and its LoadFromFile, one step under the mutex, comes at any
-- later time, also after the end of the loop. The log lines are not modelled.
pub mod Debounce
pub mod End
pub mod Outage
use eterrain_tf_upload.Base.{
  ℕ, suc, ◌+◌, ◌≤◌, ◌≡◌, Bool, true, false, ◌||◌, Option, none, some, List, [], ◌∷◌, if◌then◌else◌,
}
use eterrain_tf_upload.Text.{Bytes}
use eterrain_tf_upload.Errors.{Error, Result}
use eterrain_tf_upload.Maps.{Map}
use eterrain_tf_upload.Uuid.{UuidLib}
use eterrain_tf_upload.Io.{Stream}
use eterrain_tf_upload.Auth.FileStore.{reload}

-- The bits of an fsnotify.Op
pub record Op : Type 0 where
  pub create : Bool
  pub write : Bool
  pub remove : Bool
  pub rename : Bool
  pub chmod : Bool

-- What happens to a watcher: an event or an error of fsnotify, the closing of one of its channels, the
-- closing of stopChan, the expiry of the timer, and a load by a function that it has started, which finds the
-- file as it is.
pub data Event : Type 0 where
  changed : Op → ℕ → Event
  watch_failed : Event
  channel_closed : Event
  stop : Event
  expired : ℕ → Event
  loaded : Result Stream → Event

-- The credentials, the time at which the timer expires if it is running, the number of its functions that
-- were started and have not loaded the file yet, and whether the loop runs.
pub record Watcher (Uuid : Type 0) : Type 0 where
  pub credentials : Map Uuid (List Bytes)
  pub deadline : Option ℕ
  pub started : ℕ
  pub watching : Bool

-- debounceDuration
abbrev pub debounce : ℕ
debounce = 500

-- event.Op&fsnotify.Write == fsnotify.Write || event.Op&fsnotify.Create == fsnotify.Create
unfoldable pub is_reload_event : Op → Bool
is_reload_event op = op.write || op.create

unfoldable pub on_event : {Uuid : Type 0} → Op → ℕ → Watcher Uuid → Watcher Uuid
unfolding is_reload_event
on_event op now s = if is_reload_event op then record s { deadline = some (now + debounce) } else s

-- Close, where stopChan may be closed already: a second closing panics, which is none, and else the
-- result is what the fsnotify watcher's Close gives. A store that NewFileStore returned has a watcher.
unfoldable pub close_store : Bool → Option Error → Option (Bool × Option Error)
close_store true watcher_error = none
close_store false watcher_error = some (true, watcher_error)

module _ (lib : UuidLib) where
  open lib use {Uuid}

  -- One turn of the loop, the expiry of the timer, or the Reload of a function that it started. A change or a
  -- stop takes away a timer that is running, and no function that was started.
  pub data Step (s s' : Watcher Uuid) : Event → Type 0 where
    change :
        (op : Op) (now : ℕ)
        → s.watching ≡ true
        → s' ≡ on_event op now s
        → Step s s' (changed op now)
    failure : s.watching ≡ true → s' ≡ s → Step s s' watch_failed
    closing : s.watching ≡ true → s' ≡ (record s { watching = false }) → Step s s' channel_closed
    stopping :
        s.watching ≡ true → s' ≡ (record s { watching = false; deadline = none }) → Step s s' stop
    expiry :
        (now due : ℕ)
        → s.deadline ≡ some due
        → due ≤ now
        → s' ≡ (record s { deadline = none; started = suc s.started })
        → Step s s' (expired now)
    reloading :
        (file : Result Stream) (others : ℕ)
        → s.started ≡ suc others
        → s' ≡ (record s { credentials = (reload lib file s.credentials).0; started = others })
        → Step s s' (loaded file)

  -- The events that lead from one state to another.
  pub data Runs (end : Watcher Uuid) : Watcher Uuid → List Event → Type 0 where
    ends : (s : Watcher Uuid) → end ≡ s → Runs end s []
    next :
        (s s' : Watcher Uuid) (e : Event) (es : List Event)
        → Step s s' e
        → Runs end s' es
        → Runs end s (e ∷ es)
