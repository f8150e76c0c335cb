-- ===== src/Io/Buffer/Whole.antt =====
-- Writing through the buffer and flushing it is writing the whole text.
use mathlib.Core.List.{append_assoc, append-nil}
use eterrain_tf_upload.Base.{
  subst, Bool-cases, flat, take_all, take-drop, ℕ, ◌-◌, ◌≤◌, ◌<◌, ◌≡◌, ◌∙◌, ◌⊎◌, inl, inr, sym, ap,
  refl, true, false, none, some, List, [], ◌∷◌, ◌++◌, arith, leb, ◌==◌, length, take, drop,
  length-append,
}
use eterrain_tf_upload.Text.{Bytes}
use eterrain_tf_upload.Io.Buffer.{
  Sink, put, no_space, Buffered, buffer_size, new_buffered, flush, direct, write_string, write_rest,
  write_pieces,
}
use eterrain_tf_upload.Io.Buffer.States.{
  put_append, put_full, put-room, length-nil, State, Fine, direct-State, flush_cases,
}

abbrev filled : Bytes → Buffered → Buffered
filled s b = flush (record b { pending = b.pending ++ take (buffer_size - length b.pending) s })

write_string-fits :
    (s : Bytes) (b : Buffered)
    → b.stuck ≡ none
    → leb (length s) (buffer_size - length b.pending) ≡ true
    → write_string s b ≡ record b { pending = b.pending ++ s }
unfolding write_string
write_string-fits s b e h = ground arith

write_string-direct :
    (s : Bytes) (b : Buffered)
    → b.stuck ≡ none
    → leb (length s) (buffer_size - length b.pending) ≡ false
    → (length b.pending == 0) ≡ true
    → write_string s b ≡ direct s b
unfolding write_string
write_string-direct s b e h z = ground arith

write_string-filled :
    (s : Bytes) (b : Buffered)
    → b.stuck ≡ none
    → leb (length s) (buffer_size - length b.pending) ≡ false
    → (length b.pending == 0) ≡ false
    → write_string s b ≡ write_rest (drop (buffer_size - length b.pending) s) (filled s b)
unfolding write_string
write_string-filled s b e h z = ground arith

write_rest-State :
    (k : Sink) (sent s : Bytes) (b : Buffered)
    → buffer_size < length (sent ++ s)
    → b.sink ≡ put sent k
    → ((b.stuck ≡ none) × (b.pending ≡ []) × (length sent ≤ k.room))
      ⊎ ((b.stuck ≡ some no_space) × (k.room < length sent))
    → State k (sent ++ s) (write_rest s b)
unfolding write_rest
write_rest-State k sent s b more sunk (inr (stuck, room)) = inr (record {
  room_less = ground (arith, length-append sent s);
  buffer_less = more;
  sunk = ground (arith, put_append sent s k, put_full s (put sent k), put-room sent k);
  an_error = ground arith;
})
write_rest-State k sent s b more sunk (inl (fine, empty, room)) =
    elim (Bool-cases (leb (length s) buffer_size)) [
      | inl h ↦ inl (record {
        flushed = sent;
        all = ground arith;
        fits = room;
        sunk = ground arith;
        no_error = ground arith;
      })
      | inr h ↦
          let through : write_rest s b ≡ direct s b = ground arith in
          subst (State k (sent ++ s)) (sym through) (direct-State k sent s b room more empty sunk)
    ]

write_string-fits-State :
    (k : Sink) (done s : Bytes) (b : Buffered)
    → Fine k done b
    → leb (length s) (buffer_size - length b.pending) ≡ true
    → State k (done ++ s) (write_string s b)
write_string-fits-State k done s b fine h =
    subst (State k (done ++ s)) (sym (write_string-fits s b fine.no_error h)) (
      inl (record {
        flushed = fine.flushed;
        all = ap (λ t. t ++ s) fine.all ∙ append_assoc fine.flushed b.pending s;
        fits = fine.fits;
        sunk = fine.sunk;
        no_error = fine.no_error;
      }))

write_string-direct-State :
    (k : Sink) (done s : Bytes) (b : Buffered)
    → Fine k done b
    → leb (length s) (buffer_size - length b.pending) ≡ false
    → (length b.pending == 0) ≡ true
    → State k (done ++ s) (write_string s b)
write_string-direct-State k done s b fine h e =
    let none_pending : b.pending ≡ [] = length-nil b.pending (ground arith) in
    let all : done ≡ fine.flushed =
      fine.all ∙ ap (λ t. fine.flushed ++ t) none_pending ∙ append-nil fine.flushed in
    subst (State k (done ++ s)) (sym (write_string-direct s b fine.no_error h e)) (
      direct-State k done s b (ground (arith, fine.fits)) (ground (arith, length-append done s))
        none_pending (ground (arith, fine.sunk)))

write_string-filled-State :
    (k : Sink) (done s : Bytes) (b : Buffered)
    → Fine k done b
    → leb (length s) (buffer_size - length b.pending) ≡ false
    → (length b.pending == 0) ≡ false
    → State k (done ++ s) (write_string s b)
write_string-filled-State k done s b fine h e =
    let free = buffer_size - length b.pending in
    let head = take free s in
    let rest = drop free s in
    let sent = fine.flushed ++ (b.pending ++ head) in
    let whole : sent ++ rest ≡ done ++ s =
      append_assoc fine.flushed (b.pending ++ head) rest
      ∙ ap (λ t. fine.flushed ++ t)
          (append_assoc b.pending head rest ∙ ap (λ t. b.pending ++ t) (take-drop free s))
      ∙ sym (append_assoc fine.flushed b.pending s)
      ∙ ap (λ t. t ++ s) (sym fine.all) in
    let (sunk, verdict) =
      flush_cases k fine.flushed (record b { pending = b.pending ++ head }) fine.fits fine.sunk
        fine.no_error in
    subst (State k (done ++ s)) (sym (write_string-filled s b fine.no_error h e)) (
      subst (λ t. State k t (write_rest rest (filled s b))) whole
        (write_rest-State k sent rest (filled s b)
          (ground (
            arith,
            ap length whole,
            ap length fine.all,
            length-append done s,
            length-append fine.flushed b.pending,
          ))
          sunk verdict))

write_string-State :
    (k : Sink) (done s : Bytes) (b : Buffered)
    → State k done b
    → State k (done ++ s) (write_string s b)
unfolding write_string
write_string-State k done s b (inr full) = inr (record {
  room_less = ground (arith, full.room_less, length-append done s);
  buffer_less = ground (arith, full.buffer_less, length-append done s);
  sunk = ground (
    arith,
    full.sunk,
    full.an_error,
    put_append done s k,
    put_full s (put done k),
    full.room_less,
    put-room done k,
  );
  an_error = ground (arith, full.an_error);
})
write_string-State k done s b (inl fine) =
    elim (Bool-cases (leb (length s) (buffer_size - length b.pending))) [
      | inl h ↦ write_string-fits-State k done s b fine h
      | inr h ↦ elim (Bool-cases (length b.pending == 0)) [
        | inl e ↦ write_string-direct-State k done s b fine h e
        | inr e ↦ write_string-filled-State k done s b fine h e
      ]
    ]

write_pieces-State :
    (k : Sink) (pieces : List Bytes) (done : Bytes) (b : Buffered)
    → State k done b
    → State k (done ++ flat pieces) (write_pieces pieces b)
unfolding write_pieces
write_pieces-State k [] done b h = subst (λ t. State k t b) (sym (append-nil done)) h
write_pieces-State k (piece ∷ pieces) done b h =
    subst (λ t. State k t (write_pieces pieces (write_string piece b)))
      (append_assoc done piece (flat pieces))
      (write_pieces-State k pieces (done ++ piece) (write_string piece b)
        (write_string-State k done piece b h))

new_buffered-State : (k : Sink) → State k [] (new_buffered k)
unfolding put
new_buffered-State k = inl (record {
  flushed = [];
  all = refl;
  fits = omega arith;
  sunk = ground (arith, append-nil k.content, take_all {A = ℕ} k.room [] (omega arith));
  no_error = refl;
})

-- The file after a row of writes and the flush holds what the disk takes of the whole text. The writes
-- fail at most if the text is larger than the disk takes and than the buffer.
pub record Whole (pieces : List Bytes) (k : Sink) : Type 0 where
  pub sunk : (flush (write_pieces pieces (new_buffered k))).sink ≡ put (flat pieces) k
  pub by_room : length (flat pieces) ≤ k.room → (write_pieces pieces (new_buffered k)).stuck ≡ none
  pub by_buffer :
      length (flat pieces) ≤ buffer_size → (write_pieces pieces (new_buffered k)).stuck ≡ none

pub write_pieces-Whole : (pieces : List Bytes) (k : Sink) → Whole pieces k
unfolding flush
write_pieces-Whole pieces k =
    let b = write_pieces pieces (new_buffered k) in
    elim (write_pieces-State k pieces [] (new_buffered k) (new_buffered-State k)) [
      | inl fine ↦ record {
        sunk =
            ground (arith, fine.no_error, fine.sunk, fine.all, put_append fine.flushed b.pending k);
        by_room = λ h. fine.no_error;
        by_buffer = λ h. fine.no_error;
      }
      | inr full ↦ record {
        sunk = ground (arith, full.an_error, full.sunk);
        by_room = λ h. absurd (omega (arith, full.room_less, h));
        by_buffer = λ h. absurd (omega (arith, full.buffer_less, h));
      }
    ]
