-- ===== src/Storage/Memory/History.antt =====
-- Sequences of calls, by any organizations on any names.
use eterrain_tf_upload.Base.{
  ◌%◌, ◌+◌, ℕ, ◌≡◌, ◌≢◌, ◌∙◌, true, Option, none, some, List, [], ◌∷◌, arith, Bool-cases, inl, inr,
  All,
}
use eterrain_tf_upload.Text.{Bytes, equal_iff}
use eterrain_tf_upload.Uuid.{UuidLib}
use eterrain_tf_upload.Storage.{LockInfo}
use eterrain_tf_upload.Storage.Memory.{MemoryStorage, int64_mod}
use eterrain_tf_upload.Storage.Memory.Keys.{same_refl, same-eq, same}
use eterrain_tf_upload.Storage.Memory.Spec.{
  Op, get, put, delete, release, Cell, state, owned, cell_step, exec, view,
}
use eterrain_tf_upload.Storage.Memory.Refinement.{
  exec-view, exec-reply, exec-IsWellFormed, IsWellFormed,
}

pub record Call (Uuid : Type 0) : Type 0 where
  pub org_id : Uuid
  pub name : Bytes
  pub op : Op

-- No lock is given back by its id.
abbrev pub KeepsLock : Bytes → Op → Type 0
KeepsLock id (release i) = i ≢ id
KeepsLock id _ = Unit

-- The stored bytes stay.
abbrev pub KeepsContent : Op → Type 0
KeepsContent (put _) = ⊥
KeepsContent delete = ⊥
KeepsContent _ = Unit

module _ (lib : UuidLib) where
  open lib use {Uuid, uuid_eq}

  pub run : MemoryStorage Uuid → List (Call Uuid) → MemoryStorage Uuid
  run m [] = m
  run m (c ∷ cs) = run (exec lib c.org_id c.name c.op m).0 cs

  -- Each call on the cell of (u, a) satisfies P.
  abbrev pub OnCell : (Op → Type 0) → Uuid → Bytes → List (Call Uuid) → Type 0
  OnCell P u a = All (λ c. same lib c.org_id c.name u a ≡ true → P c.op)

  -- What the allowed steps of one cell keep, a history keeps.
  module _ (I : Cell → Type 0) (P : Op → Type 0) (u : Uuid) (a : Bytes)
      (keep : (op : Op) (c : Cell) → P op → I c → I (cell_step u a op c).0) where
    step_keeps :
        (c : Call Uuid) (m : MemoryStorage Uuid)
        → (same lib c.org_id c.name u a ≡ true → P c.op)
        → I (view lib m u a)
        → I (view lib (exec lib c.org_id c.name c.op m).0 u a)
    step_keeps c m p h = elim (Bool-cases (same lib c.org_id c.name u a)) [
      | inl here ↦
          let (org, name) = same-eq lib c.org_id u c.name a here in
          rw (exec-view lib c.org_id c.name c.op m u a, here)
            (rw (org, name) (keep c.op (view lib m u a) (p here) h))
      | inr elsewhere ↦ rw (exec-view lib c.org_id c.name c.op m u a, elsewhere) h
    ]

    run_keeps :
        (cs : List (Call Uuid)) (m : MemoryStorage Uuid)
        → OnCell P u a cs
        → I (view lib m u a)
        → I (view lib (run m cs) u a)
    unfolding run
    run_keeps [] m p h = h
    run_keeps (c ∷ cs) m p h =
        run_keeps cs (exec lib c.org_id c.name c.op m).0 p.1 (step_keeps c m p.0 h)

  run-IsWellFormed :
      (cs : List (Call Uuid)) (m : MemoryStorage Uuid)
      → IsWellFormed lib m
      → IsWellFormed lib (run m cs)
  unfolding run
  run-IsWellFormed [] m w = w
  run-IsWellFormed (c ∷ cs) m w =
      run-IsWellFormed cs (exec lib c.org_id c.name c.op m).0
        (exec-IsWellFormed lib c.org_id c.name c.op m w)

  -- A locked cell that holds a state.
  pub record IsHeld (l : LockInfo) (c : Cell) : Type 0 where
    pub lock : c.lock ≡ some l
    pub stored : c.stored ≢ none

  cell_step-IsHeld :
      (u : Uuid) (a : Bytes) (l : LockInfo) (op : Op) (c : Cell)
      → KeepsLock l.id op
      → IsHeld l c
      → IsHeld l (cell_step u a op c).0
  unfolding cell_step
  cell_step-IsHeld u a l (release i) c k h = ground (arith, equal_iff l.id i)
  cell_step-IsHeld u a l _ c k h = ground arith

  -- While nobody gives the lock back by its id, a locked state stays locked by the same lock and is
  -- not deleted, whatever calls are made by whomever.
  pub run-IsHeld :
      (u : Uuid) (a : Bytes) (l : LockInfo) (cs : List (Call Uuid)) (m : MemoryStorage Uuid)
      → OnCell (KeepsLock l.id) u a cs
      → IsHeld l (view lib m u a)
      → IsHeld l (view lib (run m cs) u a)
  run-IsHeld u a l cs m = run_keeps (IsHeld l) (KeepsLock l.id) u a (cell_step-IsHeld u a l) cs m

  -- The version that a write gives.
  abbrev pub version_after : Cell → ℕ
  version_after c = elim c.stored [ none ↦ 1 | some (_, v) ↦ (v + 1) % int64_mod ]

  cell_step-stored :
      (u : Uuid) (a : Bytes) (s : Option (Bytes × ℕ)) (op : Op) (c : Cell)
      → KeepsContent op
      → c.stored ≡ s
      → (cell_step u a op c).0.stored ≡ s
  unfolding cell_step
  cell_step-stored u a s (put x) c k h = elim k [ ]
  cell_step-stored u a s delete c k h = elim k [ ]
  cell_step-stored u a s _ c k h = ground arith

  put-stored :
      (u : Uuid) (a x : Bytes) (m : MemoryStorage Uuid)
      → (view lib (exec lib u a (put x) m).0 u a).stored ≡ some (x, version_after (view lib m u a))
  put-stored u a x m =
      rw (exec-view lib u a (put x) m u a, same_refl lib u a) (unfold cell_step in ground arith)

  -- From a well-formed storage: a read answers with the bytes of the last write to its organization and name, and with a version
  -- that the write made one more than the version before it (1 if there was no state), whatever
  -- calls come between that neither write nor delete this state.
  pub get-run-put :
      (u : Uuid) (a x : Bytes) (cs : List (Call Uuid)) (m : MemoryStorage Uuid)
      → IsWellFormed lib m
      → OnCell KeepsContent u a cs
      → (exec lib u a get (run (exec lib u a (put x) m).0 cs)).1
        ≡ state (owned u a x (version_after (view lib m u a)))
  unfolding cell_step
  get-run-put u a x cs m w k =
      let written = (exec lib u a (put x) m).0 in
      let kept =
        run_keeps (λ c. c.stored ≡ some (x, version_after (view lib m u a))) KeepsContent u a
          (cell_step-stored u a (some (x, version_after (view lib m u a)))) cs written k
          (put-stored u a x m) in
      exec-reply lib u a get (run written cs)
        (run-IsWellFormed cs written (exec-IsWellFormed lib u a (put x) m w))
      ∙ rw kept
