-- ===== src/Io/Buffer/States.antt =====
-- The states of a buffered writer: all is well, or the disk is full.
use mathlib.Core.List.{append_assoc, append-nil}
use eterrain_tf_upload.Base.{
  Bool-cases, drop_all, take_append, Bool-cases, ◌-◌, ◌≤◌, ◌<◌, ◌≡◌, ◌⊎◌, inl, inr, refl, none,
  some, [], ◌∷◌, ◌++◌, arith, leb, length, take, length-append,
}
use eterrain_tf_upload.Text.{Bytes}
use eterrain_tf_upload.Io.Buffer.{
  Sink, put, put_error, no_space, Buffered, buffer_size, flush, direct,
}

pub put_append : (s t : Bytes) (k : Sink) → put t (put s k) ≡ put (s ++ t) k
unfolding put
put_append s t k = ground (
  arith,
  take_append k.room s t,
  length-append s t,
  append_assoc k.content (take k.room s) (take (k.room - length s) t),
)

pub put_full : (t : Bytes) (k : Sink) → k.room ≡ 0 → put t k ≡ k
unfolding put
put_full t k h = ground (arith, append-nil k.content)

-- All that was written is in the file or in the buffer, ...
pub record Fine (k : Sink) (done : Bytes) (b : Buffered) : Type 0 where
  pub flushed : Bytes
  pub all : done ≡ flushed ++ b.pending
  pub fits : length flushed ≤ k.room
  pub sunk : b.sink ≡ put flushed k
  pub no_error : b.stuck ≡ none

-- ... or the disk is full, and the file holds what the disk took.
pub record Full (k : Sink) (done : Bytes) (b : Buffered) : Type 0 where
  pub room_less : k.room < length done
  pub buffer_less : buffer_size < length done
  pub sunk : b.sink ≡ put done k
  pub an_error : b.stuck ≡ some no_space

abbrev pub State : Sink → Bytes → Buffered → Type 0
State k done b = Fine k done b ⊎ Full k done b

pub length-nil : (s : Bytes) → length s ≡ 0 → s ≡ []
length-nil [] h = refl
length-nil (c ∷ s) h = absurd (omega arith)

pub put-room : (s : Bytes) (k : Sink) → (put s k).room ≡ k.room - length s
unfolding put
put-room s k = refl

pub put_error_cases :
    (flushed s : Bytes) (k : Sink)
    → length flushed ≤ k.room
    → ((put_error s (put flushed k) ≡ none) × (length (flushed ++ s) ≤ k.room))
      ⊎ ((put_error s (put flushed k) ≡ some no_space) × (k.room < length (flushed ++ s)))
unfolding put_error put
put_error_cases flushed s k h = elim (Bool-cases (leb (length s) (k.room - length flushed))) [
  | inl e ↦ inl (ground arith, ground (arith, length-append flushed s))
  | inr e ↦ inr (ground arith, ground (arith, length-append flushed s))
]

-- A direct write, when the buffer is empty
pub direct-State :
    (k : Sink) (flushed s : Bytes) (b : Buffered)
    → length flushed ≤ k.room
    → buffer_size < length (flushed ++ s)
    → b.pending ≡ []
    → b.sink ≡ put flushed k
    → State k (flushed ++ s) (direct s b)
direct-State k flushed s b fits more empty sunk = elim (put_error_cases flushed s k fits) [
  | inl (e, room) ↦ inl (record {
    flushed = flushed ++ s;
    all = ground (arith, append-nil (flushed ++ s));
    fits = room;
    sunk = ground (arith, put_append flushed s k);
    no_error = ground arith;
  })
  | inr (e, room) ↦ inr (record {
    room_less = room;
    buffer_less = more;
    sunk = ground (arith, put_append flushed s k);
    an_error = ground arith;
  })
]

pub flush_cases :
    (k : Sink) (flushed : Bytes) (b : Buffered)
    → length flushed ≤ k.room
    → b.sink ≡ put flushed k
    → b.stuck ≡ none
    → ((flush b).sink ≡ put (flushed ++ b.pending) k)
      × ((((flush b).stuck ≡ none)
            × ((flush b).pending ≡ [])
            × (length (flushed ++ b.pending) ≤ k.room))
          ⊎ (((flush b).stuck ≡ some no_space) × (k.room < length (flushed ++ b.pending))))
unfolding flush
flush_cases k flushed b fits sunk fine = (
  ground (arith, put_append flushed b.pending k),
  elim (put_error_cases flushed b.pending k fits) [
    | inl (e, room) ↦ inl (
      ground arith,
      ground (
        arith,
        drop_all b.sink.room b.pending,
        put-room flushed k,
        length-append flushed b.pending,
      ),
      room,
    )
    | inr (e, room) ↦ inr (ground arith, room)
  ],
)
