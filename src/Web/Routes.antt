-- ===== src/Web/Routes.antt =====
-- src/web_status.c: what a request line asks for. The request that is passed on is the one slot, with
-- its fields set: the source sets them before the call that tests whether the slot is free and sends
-- it to the reactor thread, and sends the answer when that returns.
pub mod Methods
use Prim.Native.String.{String}
use chrontabulator.Base.{
  ℕ, ◌%◌, ◌^◌, Bool, true, false, not, ◌&&◌, Option, none, some, List, [], ◌∷◌, ◌==◌, if◌then◌else◌,
}
use chrontabulator.Base.Mem.{Mem}
use chrontabulator.Wire.Address.{Text, app_parse_ipv4}
use chrontabulator.Ctx.{
  AdminRequest, Item, Rc, ok, err, Errno, etimedout, segments_list, segment_records,
  recording_start, recording_stop, segment_delete, quick_format, set_write_buffers, set_write_chunk,
  set_wire_has_seq, set_local_ip,
}
use chrontabulator.Web.Query.{codes, has_prefix, parse_segment_path, query_get_uint, query_get_str}

-- What becomes of a connection: a page, an error, or the slot with its fields set, for a call with
-- a timeout in seconds.
pub data Action : Type 0 where
  send_status send_eal send_page not_found confirm_missing : Action
  invalid_address : AdminRequest → Action
  admin_call : AdminRequest → ℕ → Action

abbrev pub admin_timeout_sec : ℕ
admin_timeout_sec = 3

abbrev pub quick_format_timeout_sec : ℕ
quick_format_timeout_sec = 30

-- `query_get_uint(rest, key, &v) ? v : d`
abbrev pub value_or : ℕ → Option ℕ → ℕ
value_or d none = d
value_or d (some v) = v

abbrev pub is_given : Option ℕ → Bool
is_given none = false
is_given (some v) = true

-- `strncmp(rest, path, strlen(path)) == 0` on what follows a segment's id, if there is one.
abbrev pub segment_is : Text → Option (ℕ × Text) → Bool
segment_is path none = false
segment_is path (some (id, rest)) = has_prefix path rest

abbrev pub segment_id : Option (ℕ × Text) → ℕ
segment_id none = 0
segment_id (some (id, rest)) = id

abbrev pub after_id : Option (ℕ × Text) → Text
after_id none = []
after_id (some (id, rest)) = rest

abbrev pub call : AdminRequest → Action
call req = admin_call req admin_timeout_sec

-- The text of the address, cut to a buffer of 32; no key is as an empty value.
unfoldable pub local_ip_text : Text → Text
local_ip_text line = elim (query_get_str line (codes "ip") 32) [ none ↦ [] | some s ↦ s ]

-- An empty address turns the responder off.
unfoldable pub address_request : (Text → List ℕ) → Text → AdminRequest → Action
address_request sscanf [] req = call (record req { req_have_local_ip = false })
address_request sscanf (c ∷ s) req =
    let (parsed, ip) = app_parse_ipv4 sscanf (c ∷ s) req.req_local_ip in
    let req1 = record req { req_local_ip = ip } in
    if parsed then call (record req1 { req_have_local_ip = true }) else invalid_address req1

abbrev pub query : (Text → ℕ × Text) → Text → String → Option ℕ
query strtoull line key = query_get_uint strtoull line (codes key)

unfoldable pub list_request : (Text → ℕ × Text) → Text → AdminRequest → Action
list_request strtoull line req = call (record req {
  op = segments_list;
  req_include_deleted = not (value_or 0 (query strtoull line "include_deleted") == 0);
})

unfoldable pub records_request : (Text → ℕ × Text) → ℕ → Text → AdminRequest → Action
records_request strtoull id rest req = call (record req {
  op = segment_records;
  req_segment_id = id;
  req_offset = value_or 0 (query strtoull rest "offset");
  req_limit = value_or 0 (query strtoull rest "limit") % 2 ^ 32;
})

unfoldable pub start_request : (Text → ℕ × Text) → Text → AdminRequest → Action
start_request strtoull line req = call (record req {
  op = recording_start;
  req_port = value_or 0 (query strtoull line "port") % 2 ^ 16;
  req_count_limit_given = is_given (query strtoull line "count_limit");
  req_count_limit = value_or 0 (query strtoull line "count_limit");
})

unfoldable pub format_request : (Text → ℕ × Text) → Text → AdminRequest → Action
format_request strtoull line req =
    if not (value_or 0 (query strtoull line "confirm") == 1)
    then confirm_missing
    else admin_call (record req { op = quick_format }) quick_format_timeout_sec

unfoldable pub wire_has_seq_request : (Text → ℕ × Text) → Text → AdminRequest → Action
wire_has_seq_request strtoull line req = call (record req {
  op = set_wire_has_seq;
  req_wire_has_seq = not (value_or 1 (query strtoull line "value") == 0);
})

unfoldable pub local_ip_request : (Text → List ℕ) → Text → AdminRequest → Action
local_ip_request sscanf line req =
    address_request sscanf (local_ip_text line) (record req { op = set_local_ip })

module _ (strtoul : Text → ℕ × Text) (strtoull : Text → ℕ × Text) (sscanf : Text → List ℕ) where
  -- The second half of the chain of tests: the routes of POST.
  unfoldable pub post_request : Text → AdminRequest → Action
  post_request line req =
      let delete = parse_segment_path strtoul line (codes "POST /segments/") in
      if has_prefix (codes "POST /recording/start") line
      then start_request strtoull line req
      else if has_prefix (codes "POST /recording/stop") line
      then call (record req { op = recording_stop })
      else if segment_is (codes "/delete") delete
      then call (record req { op = segment_delete; req_segment_id = segment_id delete })
      else if has_prefix (codes "POST /quick-format") line
      then format_request strtoull line req
      else if has_prefix (codes "POST /write-buffers") line
      then call (record req {
        op = set_write_buffers;
        req_write_buf_count = value_or 0 (query strtoull line "count") % 2 ^ 32;
      })
      else if has_prefix (codes "POST /write-chunk") line
      then call (record req {
        op = set_write_chunk;
        req_write_chunk_bytes = value_or 0 (query strtoull line "bytes") % 2 ^ 32;
      })
      else if has_prefix (codes "POST /wire-has-seq") line
      then wire_has_seq_request strtoull line req
      else if has_prefix (codes "POST /local-ip") line
      then local_ip_request sscanf line req
      else not_found

  unfoldable pub handle_connection : Text → AdminRequest → Action
  handle_connection line req =
      let records = parse_segment_path strtoul line (codes "GET /segments/") in
      if has_prefix (codes "GET /status.json ") line
      then send_status
      else if has_prefix (codes "GET /eal.json ") line
      then send_eal
      else if has_prefix (codes "GET / ") line
      then send_page
      else if has_prefix (codes "GET /segments.json") line
      then list_request strtoull line req
      else if segment_is (codes "/records.json") records
      then records_request strtoull (segment_id records) (after_id records) req
      else post_request line req

-- What is sent back for an admin request.
pub data Answer : Type 0 where
  unavailable : Answer
  bad_request : Errno → Answer
  json : List Item → Answer
  empty_json : Answer

-- `rc == 0 ? req->rc : rc`
abbrev pub result : Rc → AdminRequest → Rc
result ok req = req.rc
result (err e) req = err e

unfoldable pub send_admin_result : Rc → AdminRequest → Answer
send_admin_result ok req = elim req.resp [ [] ↦ empty_json | i ∷ is ↦ json (i ∷ is) ]
send_admin_result (err etimedout) req = unavailable
send_admin_result (err e) req = bad_request e
