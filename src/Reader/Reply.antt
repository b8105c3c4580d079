-- ===== src/Reader/Reply.antt =====
-- src/chrono_admin.c: `resp_buf`, the text that an answer is printed into, with its capacity. What
-- `vsnprintf` formats is given as the text; where it goes and how it is cut is as in C.
pub mod Places
pub mod Bounds
pub mod Texts
use chrontabulator.Base.{
  ℕ, zero, suc, ◌+◌, ◌-◌, ◌*◌, ◌/◌, ◌%◌, ◌^◌, List, [], ◌∷◌, ◌++◌, ltb, leb, if◌then◌else◌, length,
}
use chrontabulator.Base.Mem.{Mem, put_byte}
use chrontabulator.Wire.Address.{Text}
use chrontabulator.Web.Query.{take}

-- `CHRONO_ADMIN_RESP_BUF_CAP`
abbrev pub resp_buf_size : ℕ
resp_buf_size = 1024 * 1024

-- The three fields of the request that printing uses.
pub record RespBuf : Type 0 where
  pub resp_buf : Mem
  pub resp_len : ℕ
  pub resp_buf_cap : ℕ

-- A text at a place in memory.
unfoldable pub put_text : Mem → ℕ → Text → Mem
put_text m p [] = m
put_text m p (c ∷ s) = put_text (put_byte m p c) (p + 1) s

-- `vsnprintf(m + p, size, …)` of a text: as much as fits before the zero.
unfoldable pub vsnprintf : Mem → ℕ → ℕ → Text → Mem
vsnprintf m p size s = let cut = take (size - 1) s in put_byte (put_text m p cut) (p + length cut) 0

unfoldable pub admin_buf_appendf : Text → RespBuf → RespBuf
admin_buf_appendf s r =
    let remaining = r.resp_buf_cap - r.resp_len in
    if leb r.resp_buf_cap r.resp_len then r else record r {
      resp_buf = vsnprintf r.resp_buf r.resp_len remaining s;
      resp_len = r.resp_len + (if ltb (length s) remaining then length s else remaining);
    }

-- `hexdigits[d]`
unfoldable pub hex_digit : ℕ → ℕ
hex_digit d = if ltb d 10 then 48 + d else 87 + d

-- The loop over the bytes of `payload` from `q` on.
unfoldable pub put_hex : ℕ → Mem → ℕ → Mem → ℕ → Mem
put_hex zero m p payload q = m
put_hex (suc n) m p payload q =
    put_hex n
      (put_byte (put_byte m p (hex_digit (payload q / 16))) (p + 1) (hex_digit (payload q % 16)))
      (p + 2) payload (q + 1)

-- `len`, cut to what there is room for.
unfoldable pub hex_len : ℕ → ℕ → ℕ
hex_len remaining len = if ltb remaining (len * 2) then remaining / 2 % 2 ^ 32 else len

unfoldable pub admin_buf_append_hex : Mem → ℕ → RespBuf → RespBuf
admin_buf_append_hex payload len r =
    let n = hex_len (r.resp_buf_cap - r.resp_len) len in
    if leb r.resp_buf_cap r.resp_len then r else record r {
      resp_buf = put_hex n r.resp_buf r.resp_len payload 0;
      resp_len = r.resp_len + n * 2;
    }

-- The calls that print an answer.
pub data Piece : Type 0 where
  formatted : Text → Piece
  hex : Mem → ℕ → Piece

unfoldable pub append_piece : Piece → RespBuf → RespBuf
append_piece (formatted s) r = admin_buf_appendf s r
append_piece (hex payload len) r = admin_buf_append_hex payload len r

unfoldable pub append_pieces : List Piece → RespBuf → RespBuf
append_pieces [] r = r
append_pieces (p ∷ ps) r = append_pieces ps (append_piece p r)

-- What they are meant to print.
unfoldable pub hex_text : ℕ → Mem → ℕ → Text
hex_text zero payload q = []
hex_text (suc n) payload q =
    hex_digit (payload q / 16) ∷ hex_digit (payload q % 16) ∷ hex_text n payload (q + 1)

unfoldable pub piece_text : Piece → Text
piece_text (formatted s) = s
piece_text (hex payload len) = hex_text len payload 0

unfoldable pub answer_text : List Piece → Text
answer_text [] = []
answer_text (p ∷ ps) = piece_text p ++ answer_text ps
