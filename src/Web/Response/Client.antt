-- ===== src/Web/Response/Client.antt =====
-- What a client reads of the answers of the web server (src/web_status.c).
use mathlib.Core.List.{append_assoc}
use chrontabulator.Base.{
  ℕ, ◌+◌, ◌≤◌, ◌<◌, ◌≡◌, refl, ap, ◌∙◌, Bool, true, not, ◌&&◌, Option, none, some, [], ◌∷◌, ◌++◌,
  leb, ltb, ◌==◌, if◌then◌else◌, length, length-append, arith, if_true, lt→ltb,
}
use chrontabulator.Ctx.{Rc, AdminRequest}
use chrontabulator.Wire.Address.{Text}
use chrontabulator.Web.Query.{codes, has_prefix, drop, before}
use chrontabulator.Web.Request.{blank_line}
use chrontabulator.Web.Routes.{
  Action, send_status, send_eal, send_page, not_found, confirm_missing, invalid_address, admin_call,
  Answer, unavailable, bad_request, json, empty_json, result, send_admin_result,
}
use chrontabulator.Web.Response.{
  Response, Contents, admin_response, answer_connection, response_header, send_response,
}

-- A client takes what follows the first blank line for the body,
unfoldable pub body_of : Text → Option Text
body_of [] = none
body_of (c ∷ s) = if has_prefix blank_line (c ∷ s) then some (drop 3 s) else body_of s

-- and for a field what follows its name at the start of a line, up to the end of that.
unfoldable pub field_of : Text → Text → Option Text
field_of name [] = none
field_of name (c ∷ s) =
    if has_prefix (13 ∷ 10 ∷ name) (c ∷ s)
    then some (before (λ d. d == 13) (drop (length name + 1) s))
    else field_of name s

-- No line ends in the text.
abbrev is_inline : Text → Bool
is_inline [] = true
is_inline (c ∷ s) = not (c == 13) && is_inline s

abbrev pub are_digits : Text → Bool
are_digits [] = true
are_digits (c ∷ s) = (leb b'0' c && leb c b'9') && are_digits s

digits-inline : (s : Text) → are_digits s ≡ true → is_inline s ≡ true
digits-inline [] h = refl
digits-inline (c ∷ s) h = ground (arith, digits-inline s)

body_of-inline : (s t : Text) → is_inline s ≡ true → body_of (s ++ t) ≡ body_of t
unfolding body_of has_prefix
body_of-inline [] t h = refl
body_of-inline (c ∷ s) t h = ground (arith, body_of-inline s t)

field_of-inline : (name s t : Text) → is_inline s ≡ true → field_of name (s ++ t) ≡ field_of name t
unfolding field_of has_prefix
field_of-inline name [] t h = refl
field_of-inline name (c ∷ s) t h = ground (arith, field_of-inline name s t)

before-inline : (s t : Text) → is_inline s ≡ true → before (λ d. d == 13) (s ++ (13 ∷ t)) ≡ s
unfolding before
before-inline [] t h = refl
before-inline (c ∷ s) t h = ground (arith, before-inline s t)

-- The two texts that a response chooses are short, and within a line.
abbrev IsPlain : Response → Type 0
IsPlain r =
    (is_inline r.status_line ≡ true)
    × (is_inline r.content_type ≡ true)
    × (length r.status_line + length r.content_type ≤ 100)

admin_response-IsPlain : (k : Contents) (a : Answer) → IsPlain (admin_response k a)
unfolding admin_response
admin_response-IsPlain k unavailable = (refl, refl, omega arith)
admin_response-IsPlain k (bad_request e) = (refl, refl, omega arith)
admin_response-IsPlain k (json is) = (refl, refl, omega arith)
admin_response-IsPlain k empty_json = (refl, refl, omega arith)

answer_connection-IsPlain :
    (k : Contents) (rc : Rc) (req : AdminRequest) (a : Action)
    → IsPlain (answer_connection k rc req a)
unfolding answer_connection
answer_connection-IsPlain k rc req send_status = (refl, refl, omega arith)
answer_connection-IsPlain k rc req send_eal = (refl, refl, omega arith)
answer_connection-IsPlain k rc req send_page = (refl, refl, omega arith)
answer_connection-IsPlain k rc req not_found = (refl, refl, omega arith)
answer_connection-IsPlain k rc req confirm_missing = (refl, refl, omega arith)
answer_connection-IsPlain k rc req (invalid_address asked) = (refl, refl, omega arith)
answer_connection-IsPlain k rc req (admin_call asked timeout) =
    admin_response-IsPlain k (send_admin_result (result rc req) req)

module _ (decimal : ℕ → Text) (digits : (n : ℕ) → are_digits (decimal n) ≡ true)
    (short : (n : ℕ) → length (decimal n) ≤ 20) where
  -- What follows the texts that are chosen.
  abbrev rest : Response → Text
  rest r = decimal (length r.body) ++ codes "\r\nConnection: close\r\n\r\n"

  abbrev from_type : Response → Text
  from_type r = r.content_type ++ (codes "; charset=utf-8\r\nContent-Length: " ++ rest r)

  response_header-length : (r : Response) → IsPlain r → length (response_header decimal r) < 512
  unfolding response_header
  response_header-length r h = omega (
    arith,
    short (length r.body),
    length-append r.status_line (codes "\r\nContent-Type: " ++ from_type r),
    length-append r.content_type (codes "; charset=utf-8\r\nContent-Length: " ++ rest r),
    length-append (decimal (length r.body)) (codes "\r\nConnection: close\r\n\r\n"),
    h.2,
  )

  -- The header, with the body after it, as one text to read.
  abbrev whole : Response → Text
  whole r =
      codes "HTTP/1.1 "
      ++ (r.status_line
          ++ (codes "\r\nContent-Type: "
              ++ (r.content_type
                  ++ (codes "; charset=utf-8\r\nContent-Length: "
                      ++ (decimal (length r.body)
                          ++ (codes "\r\nConnection: close\r\n\r\n" ++ r.body))))))

  response_header_whole : (r : Response) → response_header decimal r ++ r.body ≡ whole r
  unfolding response_header
  response_header_whole r = simp append_assoc

  whole-body : (r : Response) → IsPlain r → body_of (whole r) ≡ some r.body
  unfolding body_of has_prefix drop
  whole-body r h =
      body_of-inline r.status_line _ h.0
      ∙ body_of-inline r.content_type _ h.1
      ∙ body_of-inline (decimal (length r.body)) _
          (digits-inline (decimal (length r.body)) (digits (length r.body)))

  whole-field :
      (r : Response)
      → IsPlain r
      → field_of (codes "Content-Length: ") (whole r) ≡ some (decimal (length r.body))
  unfolding field_of has_prefix drop
  whole-field r h =
      field_of-inline (codes "Content-Length: ") r.status_line _ h.0
      ∙ field_of-inline (codes "Content-Length: ") r.content_type _ h.1
      ∙ ap some (
          before-inline (decimal (length r.body)) _
            (digits-inline (decimal (length r.body)) (digits (length r.body))))

  -- Whatever the server answers a connection, if a length is printed in decimal digits, at most 20
  -- of them: the header fits its buffer, so that it and the body are sent whole, one after the
  -- other; and who reads the two as one text finds exactly the body behind the first blank line,
  -- and its length as it is printed in the Content-Length field.
  pub answer_connection-Reads :
      (k : Contents) (rc : Rc) (req : AdminRequest) (a : Action)
      → (let r = answer_connection k rc req a in
          (send_response decimal r ≡ some (response_header decimal r ∷ r.body ∷ []))
          × (body_of (response_header decimal r ++ r.body) ≡ some r.body)
          × (field_of (codes "Content-Length: ") (response_header decimal r ++ r.body)
              ≡ some (decimal (length r.body))))
  unfolding send_response
  answer_connection-Reads k rc req a =
      let r = answer_connection k rc req a in
      let plain = answer_connection-IsPlain k rc req a in
      (
        if_true (ltb (length (response_header decimal r)) 512) _ _
            (lt→ltb (length (response_header decimal r)) 512 (response_header-length r plain)),
        ap body_of (response_header_whole r) ∙ whole-body r plain,
        ap (field_of (codes "Content-Length: ")) (response_header_whole r) ∙ whole-field r plain,
      )
