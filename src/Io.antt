-- ===== src/Io.antt =====
-- What the service reads: a file or a request body is a stream of bytes that may end in an error.
-- io.ReadAll, io.LimitReader, http.MaxBytesReader and bufio.Scanner with its default split function.
pub mod Lines
pub mod Buffer
use mathlib.Core.List.{reverse}
use eterrain_tf_upload.Base.{
  ℕ, ◌+◌, Option, none, some, List, [], ◌∷◌, ltb, ◌==◌, if◌then◌else◌, length, take,
}
use eterrain_tf_upload.Text.{Bytes}
use eterrain_tf_upload.Errors.{Error, errorf, Result, ok, err}

pub record Stream : Type 0 where
  pub content : Bytes
  pub failure : Option Error

-- io.ReadAll
unfoldable pub read_all : Stream → Result Bytes
read_all s = elim s.failure [ none ↦ ok s.content | some e ↦ err e ]

-- io.LimitReader: after n bytes the stream ends, and an error behind them is not met.
unfoldable pub limit_reader : ℕ → Stream → Stream
limit_reader n s =
    if ltb (length s.content) n then s else record { content = take n s.content; failure = none }

-- http.MaxBytesReader: a stream of more than n bytes ends in an error after n of them.
unfoldable pub max_bytes_reader : ℕ → Stream → Stream
max_bytes_reader n s =
    if ltb n (length s.content)
    then record {
      content = take n s.content;
      failure = some (errorf "http: request body too large" []);
    }
    else s

-- A line without its carriage return; the line comes in reverse.
unfoldable pub line_of : Bytes → Bytes
line_of [] = []
line_of (c ∷ s) = if c == b'\r' then reverse s else reverse (c ∷ s)

-- bufio.MaxScanTokenSize
abbrev pub max_line : ℕ
max_line = 65536

-- The lines of a text, and the error of a scanner whose buffer of 65536 bytes is full with no line
-- end in it. `line` is the line so far, in reverse, and `n` its length.
unfoldable pub scan_onto : Bytes → ℕ → Bytes → List Bytes × Option Error
unfolding line_of
scan_onto [] n [] = ([], none)
scan_onto (l ∷ line) n [] = (line_of (l ∷ line) ∷ [], none)
scan_onto line n (c ∷ s) =
    let ended = scan_onto [] 0 s in
    let longer = scan_onto (c ∷ line) (n + 1) s in
    if c == b'\n'
    then (line_of line ∷ ended.0, ended.1)
    else if n + 1 == max_line
    then ([], some (errorf "bufio.Scanner: token too long" []))
    else longer

-- The lines that Scan returns and what Err returns after the last.
unfoldable pub scan_lines : Stream → List Bytes × Option Error
unfolding scan_onto
scan_lines s =
    let (lines, too_long) = scan_onto [] 0 s.content in
    elim too_long [ some e ↦ (lines, some e) | none ↦ (lines, s.failure) ]
