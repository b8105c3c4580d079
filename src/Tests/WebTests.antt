-- ===== src/Tests/WebTests.antt =====
-- Request lines and a status (src/web_status.c).
use chrontabulator.Base.{
  ℕ, ◌+◌, ◌-◌, ◌*◌, ◌≡◌, refl, List, [], ◌∷◌, leb, ◌&&◌, arith, if◌then◌else◌, Bool, true, false,
  some, zero, suc, ◌/◌, ◌%◌, ◌≤◌, ◌<◌, ◌++◌, ltb, length, length-append, if_cases,
}
use chrontabulator.Wire.Address.{Text}
use chrontabulator.Web.Query.{take, drop, has_prefix, codes}
use chrontabulator.Web.Request.{room, crlf, strstr, recv, keep_line, read_loop, read_request_line}
use chrontabulator.Web.Request.Pieces.{received, line_of}
use chrontabulator.Web.Request.Lines.{read_request_line-received}
use chrontabulator.Web.Response.{
  Response, Contents, answer_connection, response_header, send_response,
}
use chrontabulator.Web.Response.Client.{are_digits, body_of, field_of, answer_connection-Reads}
use chrontabulator.Web.Routes.{handle_connection, not_found, admin_call, admin_timeout_sec}
use chrontabulator.Ctx.{ok, err, ebusy}
use chrontabulator.Web.Routes.Methods.{AllowedAction, handle_connection-Allowed}
use chrontabulator.Web.Server.{
  Server, Answers, Round, nothing, refused, accepted, web_status_start, server_thread_main,
}
use chrontabulator.Web.Server.Closed.{Restored, run_server, accepted_before, run_server-Restored}
use chrontabulator.Web.Status.{render_status_json}
use chrontabulator.Web.Status.Capacity.{render_status_json-capacity}
use chrontabulator.Volume.Init.{fresh_volume}
use chrontabulator.Tests.Data.{recording_ctx, test_request}

-- The digits at the head of a text, and what follows them.
abbrev read_from : ℕ → Text → ℕ × Text
read_from n [] = (n, [])
read_from n (c ∷ s) =
    let further = read_from (n * 10 + (c - 48)) s in
    if leb b'0' c && leb c b'9' then further else (n, c ∷ s)

abbrev read_number : Text → ℕ × Text
read_number = read_from 0

abbrev format_line : Text
format_line = codes "POST /quick-format?confirm=1 HTTP/1.1"

abbrev one_address : Text → List ℕ
one_address s = 192 ∷ 168 ∷ 1 ∷ 2 ∷ []

handle_connection-Allowed_example :
    AllowedAction read_number read_number one_address test_request format_line
      (handle_connection read_number read_number one_address format_line test_request)
handle_connection-Allowed_example =
    handle_connection-Allowed read_number read_number one_address format_line test_request

render_status_json-capacity_example :
    let st = render_status_json recording_ctx in
    (st.data_used_bytes ≡ (4097 - 4097) * 512)
    × (st.data_free_bytes ≡ (8192 - 4097) * 512)
    × (4097 * 512 + st.data_used_bytes + st.data_free_bytes ≡ st.total_bytes)
unfolding fresh_volume
render_status_json-capacity_example =
    render_status_json-capacity recording_ctx (omega arith) (omega arith) (omega arith)

-- A request whose first end of line is split between two pieces.
abbrev pieces : List Text
pieces =
    codes "GET /eal.json HTTP/1.1"
    ∷ (13 ∷ [])
    ∷ (10 ∷ codes "Host: a")
    ∷ (13 ∷ 10 ∷ 13 ∷ 10 ∷ [])
    ∷ codes "never read"
    ∷ []

pieces_line : read_request_line pieces ≡ codes "GET /eal.json HTTP/1.1"
unfolding read_request_line read_loop recv keep_line strstr has_prefix take drop
pieces_line = refl

read_request_line-received_example :
    read_request_line pieces ≡ line_of (strstr crlf (take room (received pieces)))
read_request_line-received_example = read_request_line-received pieces

-- Two connections, the second after one that failed, and a shutdown before a third.
abbrev rounds : List (Bool × Round)
rounds =
    (false, accepted 7)
    ∷ (false, nothing)
    ∷ (false, refused)
    ∷ (false, accepted 8)
    ∷ (true, accepted 9)
    ∷ []

abbrev before_start : Server
before_start = record { open_fds = 3 ∷ []; listen_fd = 0; running = false; threads = 0 }

abbrev all_well : Answers
all_well = record { socket_fd = some 5; binds = true; listens = true; thread_starts = true }

run_server-Restored_example :
    Restored before_start (run_server all_well rounds before_start)
    × ((server_thread_main rounds (web_status_start all_well before_start).1).0
        ≡ accepted_before rounds)
run_server-Restored_example = run_server-Restored all_well rounds before_start refl

-- Decimal digits, at most 20 of them.
abbrev print_digits : ℕ → ℕ → Text
print_digits zero n = []
print_digits (suc fuel) n =
    let more = print_digits fuel (n / 10) in
    let last = 48 + n % 10 in if ltb n 10 then last ∷ [] else more ++ (last ∷ [])

abbrev print_decimal : ℕ → Text
print_decimal = print_digits 20

digits-append :
    (s t : Text) → are_digits s ≡ true → are_digits t ≡ true → are_digits (s ++ t) ≡ true
digits-append [] t hs ht = ht
digits-append (c ∷ s) t hs ht = ground (arith, digits-append s t)

last-digit : (n : ℕ) → are_digits ((48 + n % 10) ∷ []) ≡ true
last-digit n = let small : n % 10 < 10 = omega arith in ground (arith, small)

print_digits-are_digits : (fuel n : ℕ) → are_digits (print_digits fuel n) ≡ true
print_digits-are_digits zero n = refl
print_digits-are_digits (suc fuel) n =
    if_cases (λ (s : Text). are_digits s ≡ true) (ltb n 10)
      {y = print_digits fuel (n / 10) ++ ((48 + n % 10) ∷ [])} (λ e. last-digit n)
      (λ e.
        digits-append (print_digits fuel (n / 10)) _ (print_digits-are_digits fuel (n / 10))
          (last-digit n))

print_digits-length : (fuel n : ℕ) → length (print_digits fuel n) ≤ fuel
print_digits-length zero n = omega arith
print_digits-length (suc fuel) n =
    if_cases (λ (s : Text). length s ≤ suc fuel) (ltb n 10)
      {y = print_digits fuel (n / 10) ++ ((48 + n % 10) ∷ [])} (λ e. omega arith)
      (λ e. omega (
        arith,
        print_digits-length fuel (n / 10),
        length-append (print_digits fuel (n / 10)) ((48 + n % 10) ∷ []),
      ))

abbrev test_contents : Contents
test_contents = record {
  status_json = codes "{}\n";
  eal_json = codes "{}\n";
  page = codes "<html></html>";
  strerror = λ e. codes "Device or resource busy";
  resp_buf = λ is. codes "[]\n";
}

-- What comes of a start that is refused because a segment is recorded.
abbrev refused_start : Response
refused_start =
    answer_connection test_contents (err ebusy) test_request
      (admin_call test_request admin_timeout_sec)

answer_connection-Reads_example :
    (send_response print_decimal refused_start
      ≡ some (response_header print_decimal refused_start ∷ refused_start.body ∷ []))
    × (body_of (response_header print_decimal refused_start ++ refused_start.body)
        ≡ some refused_start.body)
    × (field_of
          (codes "Content-Length: ")
          (response_header print_decimal refused_start ++ refused_start.body)
        ≡ some (print_decimal (length refused_start.body)))
answer_connection-Reads_example =
    answer_connection-Reads print_decimal (print_digits-are_digits 20) (print_digits-length 20)
      test_contents (err ebusy) test_request (admin_call test_request admin_timeout_sec)

not_found-header :
    response_header print_decimal (answer_connection test_contents ok test_request not_found)
    ≡ codes
        "HTTP/1.1 404 Not Found\r\nContent-Type: text/plain; charset=utf-8\r\nContent-Length: 10\r\nConnection: close\r\n\r\n"
unfolding answer_connection response_header
not_found-header = refl
