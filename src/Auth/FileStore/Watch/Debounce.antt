-- ===== src/Auth/FileStore/Watch/Debounce.antt =====
-- When the watcher reloads.
use eterrain_tf_upload.Base.{
  ap, sym, ◌∙◌, ℕ, suc, ◌+◌, ◌≤◌, ◌≡◌, refl, Option, none, some, List, [], ◌∷◌, arith,
  if◌then◌else◌,
}
use eterrain_tf_upload.Uuid.{UuidLib}
use eterrain_tf_upload.Auth.FileStore.Watch.{
  Event, Op, changed, watch_failed, channel_closed, stop, expired, loaded, Watcher, debounce,
  is_reload_event, on_event, change, failure, closing, stopping, expiry, reloading, Runs, ends,
  next,
}

-- Before each expiry there was a change, no other expiry since, and half a second since the last change;
-- before each load there was an expiry of its own. `last` is the last change that no expiry has followed,
-- `due` the number of expiries that no load has followed.
pub Debounced : Option ℕ → ℕ → List Event → Type 0
Debounced last due [] = Unit
Debounced last due (changed op now ∷ es) =
    Debounced (if is_reload_event op then some now else last) due es
Debounced last due (watch_failed ∷ es) = Debounced last due es
Debounced last due (channel_closed ∷ es) = Debounced last due es
Debounced last due (stop ∷ es) = Debounced none due es
Debounced last due (expired now ∷ es) =
    ((time : ℕ) × (last ≡ some time) × (time + debounce ≤ now)) × Debounced none (suc due) es
Debounced last due (loaded file ∷ es) = (others : ℕ) × (due ≡ suc others) × Debounced last others es

-- The time at which the timer expires after a last change.
abbrev due_after : Option ℕ → Option ℕ
due_after none = none
due_after (some time) = some (time + debounce)

due_after-some :
    (last : Option ℕ) (due : ℕ)
    → due_after last ≡ some due
    → (time : ℕ) × (last ≡ some time) × (time + debounce ≡ due)
due_after-some none due h = cc
due_after-some (some time) due h = (time, refl, cc)

module _ (lib : UuidLib) where
  open lib use {Uuid}

  deadline-on_event :
      (op : Op) (now : ℕ) (last : Option ℕ) (s : Watcher Uuid)
      → s.deadline ≡ due_after last
      → (on_event op now s).deadline ≡ due_after (if is_reload_event op then some now else last)
  unfolding on_event
  deadline-on_event op now last s h = ground arith

  started-on_event :
      (op : Op) (now : ℕ) (s : Watcher Uuid) → (on_event op now s).started ≡ s.started
  unfolding on_event
  started-on_event op now s = ground arith

  Runs-Debounced_since :
      (es : List Event) (last : Option ℕ) (n : ℕ) (s end : Watcher Uuid)
      → s.deadline ≡ due_after last
      → s.started ≡ n
      → Runs lib end s es
      → Debounced last n es
  unfolding Debounced
  Runs-Debounced_since [] last n s end h k (ends _ e) = tt
  Runs-Debounced_since (changed op now ∷ es) last n s end h k
        (next _ s' _ _ (change _ _ w e) later) =
      Runs-Debounced_since es _ n s' end
        (ap (λ t. t.deadline) e ∙ deadline-on_event op now last s h)
        (ap (λ t. t.started) e ∙ started-on_event op now s ∙ k) later
  Runs-Debounced_since (watch_failed ∷ es) last n s end h k (next _ s' _ _ (failure w e) later) =
      Runs-Debounced_since es last n s' end (ap (λ t. t.deadline) e ∙ h) (ap (λ t. t.started) e ∙ k)
        later
  Runs-Debounced_since (channel_closed ∷ es) last n s end h k (next _ s' _ _ (closing w e) later) =
      Runs-Debounced_since es last n s' end (ap (λ t. t.deadline) e ∙ h) (ap (λ t. t.started) e ∙ k)
        later
  Runs-Debounced_since (stop ∷ es) last n s end h k (next _ s' _ _ (stopping w e) later) =
      Runs-Debounced_since es none n s' end (ap (λ t. t.deadline) e) (ap (λ t. t.started) e ∙ k)
        later
  Runs-Debounced_since (expired now ∷ es) last n s end h k
        (next _ s' _ _ (expiry _ due d le e) later) =
      let (time, at, sum) = due_after-some last due (sym h ∙ d) in
      (
        (time, at, omega (arith, sum, le)),
        Runs-Debounced_since es none (suc n) s' end (ap (λ t. t.deadline) e)
            (ap (λ t. t.started) e ∙ ap suc k) later,
      )
  Runs-Debounced_since (loaded file ∷ es) last n s end h k
        (next _ s' _ _ (reloading _ others w e) later) =
      (
        others,
        sym k ∙ w,
        Runs-Debounced_since es last others s' end (ap (λ t. t.deadline) e ∙ h)
            (ap (λ t. t.started) e) later,
      )

  -- From a watcher with no timer running and no function of one started, whatever events come: an expiry of the
  -- timer follows a write or a create by at least half a second in which no other was received, one
  -- change causes at most one expiry, and each load of the file comes after an expiry of its own. The
  -- load itself may come later, also when other changes were received since the expiry.
  pub Runs-Debounced :
      (es : List Event) (s end : Watcher Uuid)
      → s.deadline ≡ none
      → s.started ≡ 0
      → Runs lib end s es
      → Debounced none 0 es
  Runs-Debounced es s end h k runs = Runs-Debounced_since es none 0 s end h k runs
