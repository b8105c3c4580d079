-- ===== src/Reader/Reply/Bounds.antt =====
-- Printing an answer (src/chrono_admin.c) stays within its buffer.
use chrontabulator.Base.{
  ℕ, ◌+◌, ◌-◌, ◌*◌, ◌≤◌, ◌<◌, ◌≡◌, refl, ap, ◌∙◌, List, [], ◌∷◌, leb, if_cases, length, arith,
}
use chrontabulator.Base.Mem.{Mem, put_byte}
use chrontabulator.Wire.Address.{Text}
use chrontabulator.Web.Query.{take, length-take}
use chrontabulator.Reader.Reply.{
  RespBuf, put_text, vsnprintf, admin_buf_appendf, hex_len, hex_text, admin_buf_append_hex, Piece,
  formatted, hex, append_piece, append_pieces,
}
use chrontabulator.Reader.Reply.Places.{put_text_above, put_hex-put_text, length-hex_text}

-- From `r`, within the capacity: the length, and what lies behind the buffer.
pub record Within (r r' : RespBuf) : Type 0 where
  pub cap : r'.resp_buf_cap ≡ r.resp_buf_cap
  pub len : r'.resp_len ≤ r.resp_buf_cap
  pub beyond : (i : ℕ) → r.resp_buf_cap ≤ i → r'.resp_buf i ≡ r.resp_buf i

Within-refl : (r : RespBuf) → r.resp_len ≤ r.resp_buf_cap → Within r r
Within-refl r h = record { cap = refl; len = h; beyond = λ i k. refl }

vsnprintf_beyond :
    (m : Mem) (p size : ℕ) (s : Text) (i : ℕ)
    → 0 < size
    → p + size ≤ i
    → vsnprintf m p size s i ≡ m i
unfolding vsnprintf
vsnprintf_beyond m p size s i h k =
    let cut = take (size - 1) s in
    apart (put_text m p cut) (p + length cut) (omega (arith, length-take (size - 1) s))
    ∙ put_text_above m p cut i (omega (arith, length-take (size - 1) s))
  where
    apart : (m : Mem) (q : ℕ) → q < i → put_byte m q 0 i ≡ m i
    apart m q l = ground arith

pub hex_len-le : (remaining len : ℕ) → hex_len remaining len * 2 ≤ remaining
unfolding hex_len
hex_len-le remaining len = ground arith

appendf-Within :
    (s : Text) (r : RespBuf) → r.resp_len ≤ r.resp_buf_cap → Within r (admin_buf_appendf s r)
unfolding admin_buf_appendf
appendf-Within s r h =
    let remaining = r.resp_buf_cap - r.resp_len in
    if_cases (Within r) (leb r.resp_buf_cap r.resp_len) {x = r} (λ e. Within-refl r h)
      (λ e. record {
        cap = refl;
        len = ground arith;
        beyond = λ i k.
            vsnprintf_beyond r.resp_buf r.resp_len remaining s i (ground arith) (omega arith);
      })

hex-Within :
    (payload : Mem) (len : ℕ) (r : RespBuf)
    → r.resp_len ≤ r.resp_buf_cap
    → Within r (admin_buf_append_hex payload len r)
unfolding admin_buf_append_hex
hex-Within payload len r h =
    let n = hex_len (r.resp_buf_cap - r.resp_len) len in
    let small = hex_len-le (r.resp_buf_cap - r.resp_len) len in
    if_cases (Within r) (leb r.resp_buf_cap r.resp_len) {x = r} (λ e. Within-refl r h)
      (λ e. record {
        cap = refl;
        len = omega arith;
        beyond = λ i k.
            ap (λ (m : Mem). m i) (put_hex-put_text n r.resp_buf r.resp_len payload 0)
            ∙ put_text_above r.resp_buf r.resp_len (hex_text n payload 0) i
                (omega (arith, length-hex_text n payload 0));
      })

piece-Within : (p : Piece) (r : RespBuf) → r.resp_len ≤ r.resp_buf_cap → Within r (append_piece p r)
unfolding append_piece
piece-Within (formatted s) r h = appendf-Within s r h
piece-Within (hex payload len) r h = hex-Within payload len r h

-- Whatever is printed, formatted texts and payloads of any lengths in any order: the length never
-- passes the capacity, which stays, and no byte behind the buffer is written.
pub append_pieces-Within :
    (ps : List Piece) (r : RespBuf) → r.resp_len ≤ r.resp_buf_cap → Within r (append_pieces ps r)
unfolding append_pieces
append_pieces-Within [] r h = Within-refl r h
append_pieces-Within (p ∷ ps) r h =
    let w = piece-Within p r h in
    let v = append_pieces-Within ps (append_piece p r) (omega (arith, w.len, w.cap)) in
    record {
      cap = v.cap ∙ w.cap;
      len = omega (arith, v.len, w.cap);
      beyond = λ i k. v.beyond i (omega (arith, w.cap)) ∙ w.beyond i k;
    }
