-- ===== src/Web/Request.antt =====
-- src/web_status.c: `read_request_line`, over what a connection delivers.
pub mod Pieces
pub mod Lines
use chrontabulator.Base.{
  ℕ, zero, suc, ◌+◌, ◌-◌, Bool, true, false, not, Option, none, some, List, [], ◌∷◌, ◌++◌, ltb,
  ◌==◌, if◌then◌else◌, length,
}
use chrontabulator.Wire.Address.{Text}
use chrontabulator.Web.Query.{has_prefix, drop, take}

-- `REQUEST_BUF_SIZE`; the bytes are received into twice as many.
abbrev pub request_buf_size : ℕ
request_buf_size = 512

-- `sizeof(buf) - 1`
abbrev pub room : ℕ
room = 1023

abbrev pub crlf : Text
crlf = 13 ∷ 10 ∷ []

abbrev pub blank_line : Text
blank_line = 13 ∷ 10 ∷ 13 ∷ 10 ∷ []

abbrev pub prepend : ℕ → Option Text → Option Text
prepend c none = none
prepend c (some s) = some (c ∷ s)

-- `strstr(s, needle)`: the text before the first occurrence. A zero byte ends the string.
unfoldable pub strstr : Text → Text → Option Text
strstr needle [] = none
strstr needle (c ∷ s) =
    if c == 0
    then none
    else if has_prefix needle (c ∷ s)
    then some []
    else prepend c (strstr needle s)

abbrev pub found : Option Text → Bool
found none = false
found (some s) = true

-- The bytes of a piece that are not taken yet stay in front of the others.
abbrev pub put_back : Text → List Text → List Text
put_back [] ps = ps
put_back (c ∷ s) ps = (c ∷ s) ∷ ps

-- `recv(fd, …, n, 0)`: what is delivered, at most `n` bytes at a time. An empty piece, as the end,
-- stands for a result that is not positive.
unfoldable pub recv : ℕ → List Text → Text × List Text
recv n [] = ([], [])
recv n (p ∷ ps) = (take n p, put_back (drop n p) ps)

-- `buf` up to `total`, `line_out` and `have_line`.
pub record Reading : Type 0 where
  pub buf : Text
  pub line : Text
  pub have_line : Bool

-- `memcpy(line_out, buf, len)`, with `len` cut to the size of the line.
abbrev pub cut_line : Text → Text
cut_line s = take (request_buf_size - 1) s

abbrev pub set_line : Option Text → Reading → Reading
set_line none r = r
set_line (some s) r = record r { line = cut_line s; have_line = true }

unfoldable pub keep_line : Reading → Reading
keep_line r = if r.have_line then r else set_line (strstr crlf r.buf) r

abbrev pub receive : Text → Reading → Reading
receive got r = keep_line (record r { buf = r.buf ++ got })

abbrev pub is_empty : Text → Bool
is_empty [] = true
is_empty (c ∷ s) = false

-- The loop, on fuel.
unfoldable pub read_loop : ℕ → List Text → Reading → Reading
read_loop zero ps r = r
read_loop (suc fuel) ps r =
    let (got, rest) = recv (room - length r.buf) ps in
    let r1 = receive got r in
    let further = read_loop fuel rest r1 in
    if not (ltb (length r.buf) room)
    then r
    else if is_empty got
    then r
    else if found (strstr blank_line r1.buf)
    then r1
    else further

-- Every round receives a byte at least.
unfoldable pub read_request_line : List Text → Text
read_request_line ps =
    (read_loop (room + 1) ps (record { buf = []; line = []; have_line = false })).line
