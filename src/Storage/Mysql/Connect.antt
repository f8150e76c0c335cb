-- ===== src/Storage/Mysql/Connect.antt =====
-- The retry loop of NewMySQLStorage.
use eterrain_tf_upload.Base.{
  ℕ, zero, suc, ap, ◌<◌, ◌≤◌, ◌≡◌, ◌≢◌, ◌⊎◌, inl, inr, refl, none, some, Option, Option-cases, [],
  ◌∷◌, arith,
}
use eterrain_tf_upload.Text.{Bytes}
use eterrain_tf_upload.Errors.{Error, ok, err, wrapf_with, number}
use eterrain_tf_upload.Uuid.{UuidLib}
use eterrain_tf_upload.Storage.Csv.{RowLib}
use eterrain_tf_upload.Storage.Mysql.{
  Database, MysqlStorage, ping_loop, new_mysql_storage, max_retries,
}

module _ (lib : UuidLib) (rl : RowLib) {D : Type 0} (database : Database rl.Time D) where
  -- The database after a number of pings
  unfoldable pub pinged : ℕ → D → D
  pinged zero d = d
  pinged (suc n) d = pinged n (database.ping d).0

  -- The answer to the ping after n others
  abbrev pub answer : ℕ → D → Option Error
  answer n d = (database.ping (pinged n d)).1

  -- Some of the first n pings is answered.
  abbrev pub Answers : ℕ → D → Type 0
  Answers n d = (i : ℕ) × (i < n) × (answer i d ≡ none)

  ping_loop-Answers :
      (n : ℕ) (last : Option Error) (d : D)
      → Answers n d
      → (ping_loop lib rl database n last d).1 ≡ none
  unfolding ping_loop pinged
  ping_loop-Answers zero last d (i, less, a) = absurd (omega (arith, less))
  ping_loop-Answers (suc n) last d (zero, less, a) = ground (arith, a)
  ping_loop-Answers (suc n) last d (suc i, less, a) =
      let (d', failed) = database.ping d in
      ground (arith, ping_loop-Answers n failed d' (i, omega (arith, less), a))

  ping_loop_cases :
      (n : ℕ) (last : Option Error) (d : D)
      → (((ping_loop lib rl database (suc n) last d).1 ≡ none) × Answers (suc n) d)
        ⊎ ((e : Error) × ((ping_loop lib rl database (suc n) last d).1 ≡ some e)
            × (answer n d ≡ some e))
  unfolding ping_loop pinged
  ping_loop_cases zero last d = elim (Option-cases (database.ping d).1) [
    | inl p ↦ inl (ground arith, (0, omega arith, p))
    | inr (e, p) ↦ inr (e, ground arith, p)
  ]
  ping_loop_cases (suc n) last d = elim (Option-cases (database.ping d).1) [
    | inl p ↦ inl (ground arith, (0, omega arith, p))
    | inr (e, p) ↦ elim (ping_loop_cases n (database.ping d).1 (database.ping d).0) [
      | inl (r, (i, less, a)) ↦ inl (ground arith, (suc i, omega (arith, less), a))
      | inr (f, r, a) ↦ inr (f, ground arith, a)
    ]
  ]

  -- If the data source can be opened: NewMySQLStorage returns a storage when one of the first 30 pings is
  -- answered, and when none is, it returns the error of the thirtieth.
  pub new_mysql_storage-Answers :
      (dsn db_name : Bytes) (d : D)
      → database.open_error dsn ≡ none
      → (Answers max_retries d
          → (s : MysqlStorage D) × (new_mysql_storage lib rl database dsn db_name d ≡ ok s)
            × (s.db_name ≡ db_name))
        × (¬ Answers max_retries d
            → (e : Error) × (answer 29 d ≡ some e)
              × (new_mysql_storage lib rl database dsn db_name d
                  ≡ err (
                      wrapf_with "failed to ping MySQL after %d attempts: "
                        (number max_retries ∷ [])
                        e)))
  unfolding new_mysql_storage
  new_mysql_storage-Answers dsn db_name d opens = (
    λ a.
        let p = ping_loop-Answers max_retries none d a in
        (
          record { db = (ping_loop lib rl database max_retries none d).0; db_name = db_name },
          ground (arith, opens, p),
          refl,
        ),
    λ none_answers. elim (ping_loop_cases 29 none d) [
      | inl (r, a) ↦ absurd (none_answers a)
      | inr (e, r, a) ↦ (e, a, ground (arith, opens, r))
    ],
  )

  -- A storage is made only if a ping is answered.
  pub new_mysql_storage-ok :
      (dsn db_name : Bytes) (d : D) (s : MysqlStorage D)
      → new_mysql_storage lib rl database dsn db_name d ≡ ok s
      → database.open_error dsn ≡ none
      → Answers max_retries d
  unfolding new_mysql_storage
  new_mysql_storage-ok dsn db_name d s made opens = elim (ping_loop_cases 29 none d) [
    | inl (r, a) ↦ a
    | inr (e, r, a) ↦ absurd (ground (arith, made, opens, r))
  ]

  -- The pings that a loop of at most n + 1 sends: i more than one, each but the last unanswered.
  record Sends (n : ℕ) (d end : D) : Type 0 where
    last : ℕ
    few : last ≤ n
    state : end ≡ pinged (suc last) d
    unanswered : (j : ℕ) → j < last → answer j d ≢ none
    ended : (last ≡ n) ⊎ (answer last d ≡ none)

  unanswered_later :
      (d' d : D) (j last : ℕ) (e : Error)
      → (database.ping d).1 ≡ some e
      → (database.ping d).0 ≡ d'
      → j < suc last
      → ((k : ℕ) → k < last → answer k d' ≢ none)
      → answer j d ≢ none
  unfolding pinged
  unanswered_later d' d zero last e p q h later = λ a. ground (arith, a, p)
  unanswered_later d' d (suc j) last e p q h later =
      λ a. later j (omega (arith, h)) (ground (arith, a, q))

  ping_loop-Sends :
      (n : ℕ) (last : Option Error) (d : D) → Sends n d (ping_loop lib rl database (suc n) last d).0
  unfolding ping_loop pinged
  ping_loop-Sends zero last d = elim (Option-cases (database.ping d).1) [
    | inl p ↦ record {
      last = 0;
      few = omega arith;
      state = ground arith;
      unanswered = λ j h. absurd (omega (arith, h));
      ended = inl refl;
    }
    | inr (e, p) ↦ record {
      last = 0;
      few = omega arith;
      state = ground arith;
      unanswered = λ j h. absurd (omega (arith, h));
      ended = inl refl;
    }
  ]
  ping_loop-Sends (suc n) last d = elim (Option-cases (database.ping d).1) [
    | inl p ↦ record {
      last = 0;
      few = omega arith;
      state = ground arith;
      unanswered = λ j h. absurd (omega (arith, h));
      ended = inr p;
    }
    | inr (e, p) ↦
        let later = ping_loop-Sends n (database.ping d).1 (database.ping d).0 in
        record {
          last = suc later.last;
          few = omega (arith, later.few);
          state = ground (arith, later.state);
          unanswered = λ j h.
              unanswered_later (database.ping d).0 d j later.last e p refl h later.unanswered;
          ended = elim later.ended [ inl h ↦ inl (ap suc h) | inr h ↦ inr h ];
        }
  ]

  -- The loop of NewMySQLStorage sends at least one ping and at most 30: every ping before the last is
  -- unanswered, and the last is answered or the thirtieth.
  pub ping_loop-max_retries :
      (d : D)
      → (i : ℕ) × (_ : i < max_retries) × (_ : (ping_loop lib rl database max_retries none d).0
          ≡ pinged (suc i) d)
        × (_ : (j : ℕ) → j < i → answer j d ≢ none) × ((i ≡ 29) ⊎ (answer i d ≡ none))
  ping_loop-max_retries d =
      let sends = ping_loop-Sends 29 none d in
      (sends.last, omega (arith, sends.few), sends.state, sends.unanswered, sends.ended)
