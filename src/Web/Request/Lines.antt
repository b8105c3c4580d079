-- ===== src/Web/Request/Lines.antt =====
-- The request line that the loop of `read_request_line` (src/web_status.c) ends with.
use mathlib.Core.List.{append-nil, append_assoc}
use chrontabulator.Base.{
  ℕ, zero, suc, ◌+◌, ◌-◌, ◌≤◌, ◌<◌, ◌≡◌, refl, sym, ap, ◌∙◌, Bool, true, false, not, Option, none,
  some, List, [], ◌∷◌, ◌++◌, ltb, if◌then◌else◌, if_cases, length, length-append, arith,
}
use chrontabulator.Wire.Address.{Text}
use chrontabulator.Web.Query.{take}
use chrontabulator.Web.Request.{
  room, crlf, blank_line, strstr, found, recv, Reading, set_line, keep_line, receive, is_empty,
  read_loop, read_request_line,
}
use chrontabulator.Web.Request.Pieces.{
  received, line_of, strstr-append, strstr-left, recv_more, recv_end, recv-length,
}

-- The line kept is the one in what was received so far, if there is one.
abbrev Keeps : Reading → Type 0
Keeps r = (r.have_line ≡ found (strstr crlf r.buf)) × (r.line ≡ line_of (strstr crlf r.buf))

keep_line-buf : (r : Reading) → (keep_line r).buf ≡ r.buf
unfolding keep_line
keep_line-buf r =
    if_cases (λ (x : Reading). x.buf ≡ r.buf) r.have_line {x = r} (λ e. refl)
      (λ e. by_search (strstr crlf r.buf))
  where
    by_search : (o : Option Text) → (set_line o r).buf ≡ r.buf
    by_search none = refl
    by_search (some s) = refl

nothing : (o : Option Text) → found o ≡ false → line_of o ≡ []
nothing none h = refl
nothing (some s) h = absurd (ground arith)

-- A further piece: a line found earlier stays, else it is searched for in all that there is.
receive-Keeps : (got : Text) (r : Reading) → Keeps r → Keeps (receive got r)
unfolding keep_line
receive-Keeps got r h = by_line r.have_line refl
  where
    r1 : Reading
    r1 = record r { buf = r.buf ++ got }

    searched :
        (o : Option Text) → o ≡ strstr crlf r1.buf → r.have_line ≡ false → Keeps (set_line o r1)
    searched none e k =
        (k ∙ ap found e, h.1 ∙ nothing (strstr crlf r.buf) (sym h.0 ∙ k) ∙ ap line_of e)
    searched (some s) e k = (ap found e, ap line_of e)

    by_line :
        (b : Bool) → b ≡ r.have_line → Keeps (if b then r1 else set_line (strstr crlf r1.buf) r1)
    by_line true e =
        let same = strstr-append crlf r.buf got (sym h.0 ∙ sym e) in
        (h.0 ∙ ap found (sym same), h.1 ∙ ap line_of (sym same))
    by_line false e = searched (strstr crlf r1.buf) refl (sym e)

-- A round that receives `got`, with `s` left to receive in all.
next_line :
    (fuel : ℕ) (r : Reading) (s got : Text) (rest : List Text)
    → ((x : Reading)
        → Keeps x
        → length x.buf ≤ room
        → room < fuel + length x.buf
        → (read_loop fuel rest x).line
          ≡ line_of (strstr crlf (x.buf ++ take (room - length x.buf) (received rest))))
    → Keeps r
    → room < suc fuel + length r.buf
    → is_empty got ≡ false
    → length got ≤ room - length r.buf
    → got ++ take (room - length r.buf - length got) (received rest) ≡ s
    → length r.buf ≤ room
    → (let r1 = receive got r in
        if found (strstr blank_line r1.buf) then r1 else read_loop fuel rest r1).line
      ≡ line_of (strstr crlf (r.buf ++ s))
next_line fuel r s got rest ih h f k m w l =
    if_cases (λ (x : Reading). x.line ≡ line_of (strstr crlf (r.buf ++ s)))
      (found (strstr blank_line r1.buf)) {x = r1}
      (λ e.
        kept.1
        ∙ ap line_of (sym (strstr-append crlf r1.buf tail (strstr-left crlf crlf r1.buf e)))
        ∙ ap (λ (t : Text). line_of (strstr crlf t)) all)
      (λ e.
        ih r1 kept (omega (arith, size)) (omega (arith, size, some_got got k))
        ∙ ap (λ (t : Text). line_of (strstr crlf t)) all)
  where
    r1 : Reading
    r1 = receive got r

    kept : Keeps r1
    kept = receive-Keeps got r h

    tail : Text
    tail = take (room - length r1.buf) (received rest)

    same : r1.buf ≡ r.buf ++ got
    same = keep_line-buf (record r { buf = r.buf ++ got })

    size : length r1.buf ≡ length r.buf + length got
    size = ap (λ (t : Text). length t) same ∙ length-append r.buf got

    some_got : (t : Text) → is_empty t ≡ false → 0 < length t
    some_got [] e = absurd (ground arith)
    some_got (c ∷ t) e = omega arith

    all : r1.buf ++ tail ≡ r.buf ++ s
    all =
        ap (λ (t : Text). t ++ tail) same
        ∙ ap (λ (n : ℕ). (r.buf ++ got) ++ take n (received rest))
            {y = room - length r.buf - length got} (omega (arith, size))
        ∙ append_assoc r.buf got (take (room - length r.buf - length got) (received rest))
        ∙ ap (λ (t : Text). r.buf ++ t) w

nothing_left : (n : ℕ) (s : Text) → n ≡ 0 → take n s ≡ []
unfolding take
nothing_left zero s e = refl
nothing_left (suc n) s e = absurd (omega arith)

at_end : (x : Reading) (s : Text) → Keeps x → s ≡ [] → x.line ≡ line_of (strstr crlf (x.buf ++ s))
at_end x s k e =
    k.1
    ∙ ap (λ (t : Text). line_of (strstr crlf t))
        (sym (ap (λ (t : Text). x.buf ++ t) e ∙ append-nil x.buf))

-- The loop ends with the line in what was received, and in what would have been.
loop_line :
    (fuel : ℕ) (ps : List Text) (r : Reading)
    → Keeps r
    → length r.buf ≤ room
    → room < fuel + length r.buf
    → (read_loop fuel ps r).line
      ≡ line_of (strstr crlf (r.buf ++ take (room - length r.buf) (received ps)))
unfolding read_loop
loop_line zero ps r h l f = absurd (omega arith)
loop_line (suc fuel) ps r h l f =
    let left = room - length r.buf in
    let (got, rest) = recv left ps in
    let r1 = receive got r in
    let P = λ (x : Reading). x.line ≡ line_of (strstr crlf (r.buf ++ take left (received ps))) in
    if_cases P (not (ltb (length r.buf) room)) {x = r}
      (λ e. at_end r (take left (received ps)) h (nothing_left left (received ps) (ground arith)))
      (λ e.
        if_cases P (is_empty got) {x = r}
          (λ k. at_end r (take left (received ps)) h (recv_end left ps (ground arith) k))
          (λ k.
            next_line fuel r (take left (received ps)) got rest (loop_line fuel rest) h f k
              (recv-length left ps) (recv_more left ps k) l))

-- However the connection delivers its bytes, in pieces of any sizes, the request line is the one
-- in the first 1023 bytes before its end: what stands before their first CR LF, cut to 511 bytes,
-- or nothing if there is none (a zero byte ends the search, as it ends a C string).
pub read_request_line-received :
    (ps : List Text) → read_request_line ps ≡ line_of (strstr crlf (take room (received ps)))
unfolding read_request_line strstr
read_request_line-received ps =
    loop_line (room + 1) ps (record { buf = []; line = []; have_line = false }) (refl, refl)
      (omega arith) (omega arith)
