-- ===== src/Reader/Reply/Texts.antt =====
-- What an answer's buffer holds (src/chrono_admin.c): the pieces one after the other.
use mathlib.Core.List.{append_assoc}
use chrontabulator.Base.{
  ℕ, ◌+◌, ◌-◌, ◌*◌, ◌/◌, ◌%◌, ◌^◌, ◌<◌, ◌≡◌, refl, sym, ap, ◌∙◌, List, [], ◌∷◌, ◌++◌, ltb, leb,
  if_cases, if_true, if_false, length, length-append, arith,
}
use mathlib.Core.Path.{subst⁻¹}
use chrontabulator.Base.Mem.{Mem, put_byte}
use chrontabulator.Wire.Address.{Text}
use chrontabulator.Reader.Reply.{
  RespBuf, put_text, vsnprintf, admin_buf_appendf, put_hex, hex_len, hex_text, admin_buf_append_hex,
  Piece, formatted, hex, append_piece, append_pieces, piece_text, answer_text,
}
use chrontabulator.Reader.Reply.Places.{
  text_at, text_at-Agree, text_at-add, put_text_below, text_at-put_text, put_hex-put_text,
  length-hex_text, take_all,
}

-- The text so far, with `s` behind it.
pub record Prints (r : RespBuf) (s : Text) (r' : RespBuf) : Type 0 where
  pub cap : r'.resp_buf_cap ≡ r.resp_buf_cap
  pub len : r'.resp_len ≡ r.resp_len + length s
  pub text : text_at r'.resp_buf 0 r'.resp_len ≡ text_at r.resp_buf 0 r.resp_len ++ s

put_text-text_at :
    (m : Mem) (p : ℕ) (s : Text) → text_at (put_text m p s) 0 (p + length s) ≡ text_at m 0 p ++ s
put_text-text_at m p s =
    text_at-add (put_text m p s) 0 p (length s)
    ∙ ap (λ (t : Text). t ++ text_at (put_text m p s) (0 + p) (length s))
        (text_at-Agree (put_text m p s) m 0 p (λ i a b. put_text_below m p s i (omega arith)))
    ∙ ap (λ (q : ℕ). text_at m 0 p ++ text_at (put_text m p s) q (length s)) {y = p} (omega arith)
    ∙ ap (λ (t : Text). text_at m 0 p ++ t) (text_at-put_text m p s)

-- The zero that ends a formatted text.
zero_behind : (m : Mem) (n : ℕ) → text_at (put_byte m n 0) 0 n ≡ text_at m 0 n
zero_behind m n = text_at-Agree (put_byte m n 0) m 0 n (λ i a b. apart m i (omega arith))
  where
    apart : (m : Mem) (i : ℕ) → i < n → put_byte m n 0 i ≡ m i
    apart m i l = ground arith

pub appendf-Prints :
    (s : Text) (r : RespBuf)
    → r.resp_len + length s < r.resp_buf_cap
    → Prints r s (admin_buf_appendf s r)
      × ((admin_buf_appendf s r).resp_buf (admin_buf_appendf s r).resp_len ≡ 0)
unfolding admin_buf_appendf vsnprintf
appendf-Prints s r h =
    let remaining = r.resp_buf_cap - r.resp_len in
    let P = λ (x : RespBuf). Prints r s x × (x.resp_buf x.resp_len ≡ 0) in
    if_cases P (leb r.resp_buf_cap r.resp_len) {x = r} (λ e. absurd (ground arith))
      (λ e.
        subst⁻¹
          (λ (n : ℕ). P (record r {
            resp_buf = vsnprintf r.resp_buf r.resp_len remaining s;
            resp_len = r.resp_len + n;
          }))
          (if_true (ltb (length s) remaining) (length s) remaining (ground arith))
          (subst⁻¹
            (λ (t : Text). P (record r {
              resp_buf = put_byte (put_text r.resp_buf r.resp_len t) (r.resp_len + length t) 0;
              resp_len = r.resp_len + length s;
            }))
            (take_all (remaining - 1) s (omega arith))
            (
              record {
                cap = refl;
                len = refl;
                text =
                    zero_behind (put_text r.resp_buf r.resp_len s) (r.resp_len + length s)
                    ∙ put_text-text_at r.resp_buf r.resp_len s;
              },
              ended (put_text r.resp_buf r.resp_len s) (r.resp_len + length s),
            )))
  where
    ended : (m : Mem) (n : ℕ) → put_byte m n 0 n ≡ 0
    ended m n = ground arith

hex-Prints :
    (payload : Mem) (n : ℕ) (r : RespBuf)
    → r.resp_len + n * 2 < r.resp_buf_cap
    → Prints r (hex_text n payload 0) (admin_buf_append_hex payload n r)
unfolding admin_buf_append_hex hex_len
hex-Prints payload n r h =
    let remaining = r.resp_buf_cap - r.resp_len in
    let P = λ (x : RespBuf). Prints r (hex_text n payload 0) x in
    if_cases P (leb r.resp_buf_cap r.resp_len) {x = r} (λ e. absurd (ground arith))
      (λ e.
        subst⁻¹
          (λ (k : ℕ). P (record r {
            resp_buf = put_hex k r.resp_buf r.resp_len payload 0;
            resp_len = r.resp_len + k * 2;
          }))
          (if_false (ltb remaining (n * 2)) (remaining / 2 % 2 ^ 32) n (ground arith))
          (record {
            cap = refl;
            len = omega (arith, length-hex_text n payload 0);
            text =
                ap (λ (m : Mem). text_at m 0 (r.resp_len + n * 2))
                  (put_hex-put_text n r.resp_buf r.resp_len payload 0)
                ∙ ap
                    (λ (k : ℕ). text_at (put_text r.resp_buf r.resp_len (hex_text n payload 0)) 0 k)
                    {y = r.resp_len + length (hex_text n payload 0)}
                    (omega (arith, length-hex_text n payload 0))
                ∙ put_text-text_at r.resp_buf r.resp_len (hex_text n payload 0);
          }))

piece-Prints :
    (p : Piece) (r : RespBuf)
    → r.resp_len + length (piece_text p) < r.resp_buf_cap
    → Prints r (piece_text p) (append_piece p r)
unfolding append_piece piece_text
piece-Prints (formatted s) r h = (appendf-Prints s r h).0
piece-Prints (hex payload n) r h =
    hex-Prints payload n r (omega (arith, length-hex_text n payload 0))

Prints-trans :
    (r r' r'' : RespBuf) (s t : Text) → Prints r s r' → Prints r' t r'' → Prints r (s ++ t) r''
Prints-trans r r' r'' s t h k = record {
  cap = k.cap ∙ h.cap;
  len = omega (arith, k.len, h.len, length-append s t);
  text =
      k.text
      ∙ ap (λ (u : Text). u ++ t) h.text
      ∙ append_assoc (text_at r.resp_buf 0 r.resp_len) s t;
}

-- An answer that is shorter than its buffer, and ends with a formatted text as all answers do, is
-- printed whole: what was there, then the texts and the payloads' hexadecimal digits in order, and
-- the zero that ends the string.
pub append_pieces-Prints :
    (ps : List Piece) (last : Text) (r : RespBuf)
    → r.resp_len + length (answer_text ps ++ last) < r.resp_buf_cap
    → Prints r (answer_text ps ++ last) (append_pieces (ps ++ formatted last ∷ []) r)
      × ((append_pieces (ps ++ formatted last ∷ []) r).resp_buf
            (r.resp_len + length (answer_text ps ++ last))
          ≡ 0)
unfolding append_pieces append_piece answer_text
append_pieces-Prints [] last r h =
    let p = appendf-Prints last r h in
    (p.0, ap (λ (n : ℕ). (admin_buf_appendf last r).resp_buf n) (sym p.0.len) ∙ p.1)
append_pieces-Prints (p ∷ ps) last r h =
    let s = piece_text p in
    let t = answer_text ps ++ last in
    let r1 = append_piece p r in
    let size =
      ap (λ (u : Text). length u) (append_assoc s (answer_text ps) last) ∙ length-append s t in
    let k = piece-Prints p r (omega (arith, size)) in
    let i = append_pieces-Prints ps last r1 (omega (arith, size, k.len, k.cap)) in
    (
      subst⁻¹ (λ (u : Text). Prints r u (append_pieces (ps ++ formatted last ∷ []) r1))
          (append_assoc s (answer_text ps) last)
          (Prints-trans r r1 (append_pieces (ps ++ formatted last ∷ []) r1) s t k i.0),
      ap (λ (n : ℕ). (append_pieces (ps ++ formatted last ∷ []) r1).resp_buf n)
            {y = r1.resp_len + length t} (omega (arith, size, k.len))
          ∙ i.1,
    )
