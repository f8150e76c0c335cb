-- ===== src/Auth/FileStore/Watch/End.antt =====
-- When the watcher has come to its end.
use eterrain_tf_upload.Base.{
  refl, ◌++◌, ℕ, suc, ◌+◌, ◌≤◌, ◌≡◌, ◌⊎◌, inl, inr, ap, ◌∙◌, Bool, true, false, none, List, [], ◌∷◌,
  arith, every,
}
use eterrain_tf_upload.Uuid.{UuidLib}
use eterrain_tf_upload.Auth.FileStore.Watch.{
  Event, changed, watch_failed, channel_closed, stop, expired, loaded, Watcher, on_event, change,
  failure, closing, stopping, expiry, reloading, Runs, ends, next,
}

-- Not an event of the loop
abbrev pub of_timer : Event → Bool
of_timer (changed op now) = false
of_timer watch_failed = false
of_timer channel_closed = false
of_timer stop = false
of_timer (expired now) = true
of_timer (loaded file) = true

unfoldable pub expiries : List Event → ℕ
expiries [] = 0
expiries (changed op now ∷ es) = expiries es
expiries (watch_failed ∷ es) = expiries es
expiries (channel_closed ∷ es) = expiries es
expiries (stop ∷ es) = expiries es
expiries (expired now ∷ es) = suc (expiries es)
expiries (loaded file ∷ es) = expiries es

unfoldable pub loads : List Event → ℕ
loads [] = 0
loads (changed op now ∷ es) = loads es
loads (watch_failed ∷ es) = loads es
loads (channel_closed ∷ es) = loads es
loads (stop ∷ es) = loads es
loads (expired now ∷ es) = loads es
loads (loaded file ∷ es) = suc (loads es)

module _ (lib : UuidLib) where
  open lib use {Uuid}

  -- A load has an expiry before it.
  loads-le :
      (end s : Watcher Uuid) (es : List Event)
      → Runs lib end s es
      → loads es ≤ expiries es + s.started
  unfolding loads expiries on_event
  loads-le end s [] (ends _ e) = omega arith
  loads-le end s (changed op now ∷ es) (next _ s' _ _ (change _ _ w e) later) =
      ground (arith, loads-le end s' es later, ap (λ t. t.started) e)
  loads-le end s (watch_failed ∷ es) (next _ s' _ _ (failure w e) later) =
      omega (arith, loads-le end s' es later, ap (λ t. t.started) e)
  loads-le end s (channel_closed ∷ es) (next _ s' _ _ (closing w e) later) =
      omega (arith, loads-le end s' es later, ap (λ t. t.started) e)
  loads-le end s (stop ∷ es) (next _ s' _ _ (stopping w e) later) =
      omega (arith, loads-le end s' es later, ap (λ t. t.started) e)
  loads-le end s (expired now ∷ es) (next _ s' _ _ (expiry _ due d le e) later) =
      omega (arith, loads-le end s' es later, ap (λ t. t.started) e)
  loads-le end s (loaded file ∷ es) (next _ s' _ _ (reloading _ others w e) later) =
      omega (arith, loads-le end s' es later, ap (λ t. t.started) e, w)

  -- After the end of the loop, with no timer running.
  Runs-quiet :
      (end s : Watcher Uuid) (es : List Event)
      → s.watching ≡ false
      → s.deadline ≡ none
      → Runs lib end s es
      → (every of_timer es ≡ true) × (expiries es ≡ 0)
  unfolding expiries
  Runs-quiet end s [] w d (ends _ e) = (refl, refl)
  Runs-quiet end s (changed op now ∷ es) w d (next _ s' _ _ (change _ _ x e) later) = cc
  Runs-quiet end s (watch_failed ∷ es) w d (next _ s' _ _ (failure x e) later) = cc
  Runs-quiet end s (channel_closed ∷ es) w d (next _ s' _ _ (closing x e) later) = cc
  Runs-quiet end s (stop ∷ es) w d (next _ s' _ _ (stopping x e) later) = cc
  Runs-quiet end s (expired now ∷ es) w d (next _ s' _ _ (expiry _ due x le e) later) = cc
  Runs-quiet end s (loaded file ∷ es) w d (next _ s' _ _ (reloading _ others x e) later) =
      Runs-quiet end s' es (ap (λ t. t.watching) e ∙ w) (ap (λ t. t.deadline) e ∙ d) later

  -- After the end of the loop.
  Runs-timer :
      (end s : Watcher Uuid) (es : List Event)
      → s.watching ≡ false
      → Runs lib end s es
      → (every of_timer es ≡ true) × (expiries es ≤ 1)
  unfolding expiries
  Runs-timer end s [] w (ends _ e) = (refl, omega arith)
  Runs-timer end s (changed op now ∷ es) w (next _ s' _ _ (change _ _ x e) later) = cc
  Runs-timer end s (watch_failed ∷ es) w (next _ s' _ _ (failure x e) later) = cc
  Runs-timer end s (channel_closed ∷ es) w (next _ s' _ _ (closing x e) later) = cc
  Runs-timer end s (stop ∷ es) w (next _ s' _ _ (stopping x e) later) = cc
  Runs-timer end s (expired now ∷ es) w (next _ s' _ _ (expiry _ due x le e) later) =
      let (only, no_more) =
        Runs-quiet end s' es (ap (λ t. t.watching) e ∙ w) (ap (λ t. t.deadline) e) later in
      (only, omega (arith, no_more))
  Runs-timer end s (loaded file ∷ es) w (next _ s' _ _ (reloading _ others x e) later) =
      Runs-timer end s' es (ap (λ t. t.watching) e ∙ w) later

  -- What may come after the event that ends the loop
  abbrev pub Remains : Event → List Event → Type 0
  Remains e after =
      (every of_timer after ≡ true)
      × (((e ≡ stop) × (expiries after ≡ 0)) ⊎ ((e ≡ channel_closed) × (expiries after ≤ 1)))

  Runs-Remains :
      (end s : Watcher Uuid) (before after : List Event) (e : Event)
      → (e ≡ stop) ⊎ (e ≡ channel_closed)
      → Runs lib end s (before ++ (e ∷ after))
      → Remains e after
  Runs-Remains end s (b ∷ before) after e h (next _ s' _ _ step later) =
      Runs-Remains end s' before after e h later
  Runs-Remains end s [] after e h (next _ s' _ _ (change op now w x) later) = elim h [
    | inl p ↦ cc
    | inr p ↦ cc
  ]
  Runs-Remains end s [] after e h (next _ s' _ _ (failure w x) later) = elim h [
    | inl p ↦ cc
    | inr p ↦ cc
  ]
  Runs-Remains end s [] after e h (next _ s' _ _ (closing w x) later) =
      let (only, most) = Runs-timer end s' after (ap (λ t. t.watching) x) later in
      (only, inr (refl, most))
  Runs-Remains end s [] after e h (next _ s' _ _ (stopping w x) later) =
      let (only, no_more) =
        Runs-quiet end s' after (ap (λ t. t.watching) x) (ap (λ t. t.deadline) x) later in
      (only, inl (refl, no_more))
  Runs-Remains end s [] after e h (next _ s' _ _ (expiry now due d le x) later) = elim h [
    | inl p ↦ cc
    | inr p ↦ cc
  ]
  Runs-Remains end s [] after e h (next _ s' _ _ (reloading file others w x) later) = elim h [
    | inl p ↦ cc
    | inr p ↦ cc
  ]

  -- From a watcher of whose timers no function is started, whatever happened before: once the loop has received
  -- from stopChan or has found a channel of fsnotify closed, no event is handled any more. After a
  -- receive from stopChan no timer expires; after a closed channel at most one does. A load of the file
  -- may still come, by a function that was started: over the whole run there are at most as many loads
  -- as expiries.
  pub Runs-end :
      (end s : Watcher Uuid) (before after : List Event) (e : Event)
      → s.started ≡ 0
      → (e ≡ stop) ⊎ (e ≡ channel_closed)
      → Runs lib end s (before ++ (e ∷ after))
      → Remains e after × (loads (before ++ (e ∷ after)) ≤ expiries (before ++ (e ∷ after)))
  Runs-end end s before after e k h runs = (
    Runs-Remains end s before after e h runs,
    omega (arith, k, loads-le end s (before ++ (e ∷ after)) runs),
  )
