-- ===== src/Web/Response.antt =====
-- src/web_status.c: the text of an answer, `send_response` and its calls. The texts of a C string
-- have no zero byte.
pub mod Client
use chrontabulator.Base.{ℕ, Option, none, some, List, [], ◌∷◌, ◌++◌, ltb, if◌then◌else◌, length}
use chrontabulator.Ctx.{Errno, Rc, Item, AdminRequest}
use chrontabulator.Wire.Address.{Text}
use chrontabulator.Web.Query.{codes, take}
use chrontabulator.Web.Routes.{
  Action, send_status, send_eal, send_page, not_found, confirm_missing, invalid_address, admin_call,
  Answer, unavailable, bad_request, json, empty_json, result, send_admin_result,
}

pub record Response : Type 0 where
  pub status_line : Text
  pub content_type : Text
  pub body : Text

-- The texts that are made elsewhere: the two that are rendered, the page, what the C library says
-- of an error, and what the reactor thread has printed into `resp_buf`.
pub record Contents : Type 0 where
  pub status_json : Text
  pub eal_json : Text
  pub page : Text
  pub strerror : Errno → Text
  pub resp_buf : List Item → Text

abbrev pub ok_200 : Text → Text → Response
ok_200 type s = record { status_line = codes "200 OK"; content_type = type; body = s }

abbrev pub bad_400 : Text → Response
bad_400 s = record {
  status_line = codes "400 Bad Request";
  content_type = codes "application/json";
  body = s;
}

-- `char body[128]`
abbrev pub error_body : Text → Text
error_body s = take 127 (codes "{\"error\":\"" ++ (s ++ codes "\"}\n"))

unfoldable pub admin_response : Contents → Answer → Response
admin_response k unavailable = record {
  status_line = codes "503 Service Unavailable";
  content_type = codes "text/plain";
  body = codes "request timed out\n";
}
admin_response k (bad_request e) = bad_400 (error_body (k.strerror e))
admin_response k (json is) = ok_200 (codes "application/json") (k.resp_buf is)
admin_response k empty_json = ok_200 (codes "application/json") (codes "{}\n")

-- What is sent for an action, with what the call has returned and the slot as it is then.
unfoldable pub answer_connection : Contents → Rc → AdminRequest → Action → Response
answer_connection k rc req send_status = ok_200 (codes "application/json") k.status_json
answer_connection k rc req send_eal = ok_200 (codes "application/json") k.eal_json
answer_connection k rc req send_page = ok_200 (codes "text/html") k.page
answer_connection k rc req not_found = record {
  status_line = codes "404 Not Found";
  content_type = codes "text/plain";
  body = codes "not found\n";
}
answer_connection k rc req confirm_missing =
    bad_400 (codes "{\"error\":\"pass confirm=1 to format\"}\n")
answer_connection k rc req (invalid_address asked) =
    bad_400 (codes "{\"error\":\"invalid IP address\"}\n")
answer_connection k rc req (admin_call asked timeout) =
    admin_response k (send_admin_result (result rc req) req)

-- What printf makes of a `size_t`.
module _ (decimal : ℕ → Text) where
  unfoldable pub response_header : Response → Text
  response_header r =
      codes "HTTP/1.1 "
      ++ (r.status_line
          ++ (codes "\r\nContent-Type: "
              ++ (r.content_type
                  ++ (codes "; charset=utf-8\r\nContent-Length: "
                      ++ (decimal (length r.body) ++ codes "\r\nConnection: close\r\n\r\n")))))

  -- The two texts that are sent; `none` if the first would be read past the end of its buffer,
  -- since `snprintf` returns the length of the whole text.
  unfoldable pub send_response : Response → Option (List Text)
  send_response r =
      if ltb (length (response_header r)) 512 then some (response_header r ∷ r.body ∷ []) else none
