-- ===== src/Auth/FileStore/Watch/Outage.antt =====
-- The credentials after a reload that could not open the file.
use eterrain_tf_upload.Base.{◌++◌, ◌≡◌, ap, true, false, Bool, none, List, [], ◌∷◌, arith, every}
use eterrain_tf_upload.Text.{Bytes}
use eterrain_tf_upload.Errors.{Error, err, ok}
use eterrain_tf_upload.Maps.{Map}
use eterrain_tf_upload.Uuid.{UuidLib}
use eterrain_tf_upload.Auth.FileStore.{Comparison, validate_credentials}
use eterrain_tf_upload.Auth.FileStore.Load.{validate-load_from_file-err}
use eterrain_tf_upload.Auth.FileStore.Watch.{
  Event, changed, watch_failed, channel_closed, stop, expired, loaded, Watcher, on_event, change,
  failure, closing, stopping, expiry, reloading, Runs, ends, next,
}

-- Not a load of a file that opens
abbrev pub opens_no_file : Event → Bool
opens_no_file (changed op now) = true
opens_no_file watch_failed = true
opens_no_file channel_closed = true
opens_no_file stop = true
opens_no_file (expired now) = true
opens_no_file (loaded (ok file)) = false
opens_no_file (loaded (err e)) = true

module _ (lib : UuidLib) (compare_hash : Bytes → Bytes → Comparison) where
  open lib use {Uuid, uuid_eq}

  -- Every key of every organization is refused.
  abbrev pub Refuses : Map Uuid (List Bytes) → Type 0
  Refuses credentials =
      (u : Uuid) (k : Bytes)
      → validate_credentials ⦃uuid_eq = uuid_eq⦄ compare_hash u k credentials ≡ (false, none)

  same_credentials : (c c' : Map Uuid (List Bytes)) → c' ≡ c → Refuses c → Refuses c'
  same_credentials c c' e h u k = rw e (h u k)

  Runs-Refuses :
      (end s : Watcher Uuid) (es : List Event)
      → every opens_no_file es ≡ true
      → Refuses s.credentials
      → Runs lib end s es
      → Refuses end.credentials
  unfolding on_event
  Runs-Refuses end s [] o h (ends _ e) = same_credentials _ _ (ap (λ t. t.credentials) e) h
  Runs-Refuses end s (changed op now ∷ es) o h (next _ s' _ _ (change _ _ w e) later) =
      Runs-Refuses end s' es o
        (same_credentials s.credentials s'.credentials (ground (arith, ap (λ t. t.credentials) e))
          h)
        later
  Runs-Refuses end s (watch_failed ∷ es) o h (next _ s' _ _ (failure w e) later) =
      Runs-Refuses end s' es o (same_credentials _ _ (ap (λ t. t.credentials) e) h) later
  Runs-Refuses end s (channel_closed ∷ es) o h (next _ s' _ _ (closing w e) later) =
      Runs-Refuses end s' es o (same_credentials _ _ (ap (λ t. t.credentials) e) h) later
  Runs-Refuses end s (stop ∷ es) o h (next _ s' _ _ (stopping w e) later) =
      Runs-Refuses end s' es o (same_credentials _ _ (ap (λ t. t.credentials) e) h) later
  Runs-Refuses end s (expired now ∷ es) o h (next _ s' _ _ (expiry _ due d le e) later) =
      Runs-Refuses end s' es o (same_credentials _ _ (ap (λ t. t.credentials) e) h) later
  Runs-Refuses end s (loaded (ok file) ∷ es) o h (next _ s' _ _ (reloading _ n w e) later) =
      absurd cc
  Runs-Refuses end s (loaded (err x) ∷ es) o h (next _ s' _ _ (reloading _ n w e) later) =
      Runs-Refuses end s' es o
        (same_credentials _ _ (ap (λ t. t.credentials) e)
          (λ u k. validate-load_from_file-err lib x compare_hash u k s.credentials))
        later

  -- Whatever credentials there were: once a reload could not open the file, and until a later load opens it, every
  -- key of every organization is refused, whatever else happens to the watcher.
  pub Runs-outage :
      (end s : Watcher Uuid) (before after : List Event) (x : Error) (u : Uuid) (k : Bytes)
      → every opens_no_file after ≡ true
      → Runs lib end s (before ++ (loaded (err x) ∷ after))
      → validate_credentials ⦃uuid_eq = uuid_eq⦄ compare_hash u k end.credentials ≡ (false, none)
  Runs-outage end s (b ∷ before) after x u k o (next _ s' _ _ step later) =
      Runs-outage end s' before after x u k o later
  Runs-outage end s [] after x u k o (next _ s' _ _ (reloading _ n w e) later) =
      Runs-Refuses end s' after o
        (same_credentials _ _ (ap (λ t. t.credentials) e)
          (λ v j. validate-load_from_file-err lib x compare_hash v j s.credentials))
        later u k
