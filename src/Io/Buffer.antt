-- ===== src/Io/Buffer.antt =====
-- bufio.Writer over a file on a disk that takes a number of bytes more: what reaches the file, and which
-- write meets the end of the disk.
pub mod States
pub mod Whole
use eterrain_tf_upload.Base.{
  ℕ, ◌+◌, ◌-◌, ◌≡◌, refl, Bool, true, false, Option, none, some, List, [], ◌∷◌, ◌++◌, leb, ◌==◌,
  if◌then◌else◌, length, take, drop,
}
use eterrain_tf_upload.Text.{Bytes, codes}
use eterrain_tf_upload.Errors.{Error, foreign}

-- An open file, at its end, and how many bytes the disk takes
pub record Sink : Type 0 where
  pub content : Bytes
  pub room : ℕ

-- File.Write, less its error
unfoldable pub put : Bytes → Sink → Sink
put s k = record { content = k.content ++ take k.room s; room = k.room - length s }

abbrev pub no_space : Error
no_space = foreign (codes "no space left on device")

unfoldable pub put_error : Bytes → Sink → Option Error
put_error s k = if leb (length s) k.room then none else some no_space

pub record Buffered : Type 0 where
  pub sink : Sink
  pub pending : Bytes
  pub stuck : Option Error

abbrev pub buffer_size : ℕ
buffer_size = 4096

abbrev pub new_buffered : Sink → Buffered
new_buffered k = record { sink = k; pending = []; stuck = none }

-- Writer.Flush
unfoldable pub flush : Buffered → Buffered
unfolding put put_error
flush b = elim b.stuck [
  | some e ↦ b
  | none ↦ record {
    sink = put b.pending b.sink;
    pending = drop b.sink.room b.pending;
    stuck = put_error b.pending b.sink;
  }
]

-- A write past the empty buffer
abbrev pub direct : Bytes → Buffered → Buffered
direct s b = record b { sink = put s b.sink; stuck = put_error s b.sink }

-- What is left of a write behind the filling of the buffer
unfoldable pub write_rest : Bytes → Buffered → Buffered
unfolding put put_error
write_rest s b = elim b.stuck [
  | some e ↦ b
  | none ↦ if leb (length s) buffer_size then record b { pending = b.pending ++ s } else direct s b
]

-- Writer.WriteString and WriteByte
unfoldable pub write_string : Bytes → Buffered → Buffered
unfolding flush write_rest
write_string s b = elim b.stuck [
  | some e ↦ b
  | none ↦
      let free = buffer_size - length b.pending in
      if leb (length s) free
      then record b { pending = b.pending ++ s }
      else if length b.pending == 0
      then direct s b
      else write_rest (drop free s) (flush (record b { pending = b.pending ++ take free s }))
]

-- A row of writes, of which each is skipped after an error
unfoldable pub write_pieces : List Bytes → Buffered → Buffered
unfolding write_string
write_pieces [] b = b
write_pieces (piece ∷ pieces) b = write_pieces pieces (write_string piece b)
