-- ===== src/Web/Routes/Methods.antt =====
-- Which request lines may ask for a change (src/web_status.c).
use chrontabulator.Base.{
  ℕ, ◌%◌, ◌^◌, ◌≡◌, refl, ap, Bool, true, false, not, Option, none, some, List, [], ◌∷◌, ◌++◌, ◌==◌,
  if◌then◌else◌, if_cases, arith,
}
use chrontabulator.Wire.Address.{Text, app_parse_ipv4}
use chrontabulator.Ctx.{
  AdminRequest, Op, segments_list, segment_records, recording_stop, segment_delete, quick_format,
  set_write_buffers, set_write_chunk, set_local_ip,
}
use chrontabulator.Web.Query.{codes, has_prefix, parse_segment_path, query_get_uint}
use chrontabulator.Web.Routes.{
  Action, admin_call, not_found, invalid_address, handle_connection, post_request, list_request,
  records_request, start_request, format_request, wire_has_seq_request, local_ip_request,
  address_request, call, local_ip_text, query, segment_id, after_id, segment_is, value_or,
}

has_prefix_weaken : (p q s : Text) → has_prefix (p ++ q) s ≡ true → has_prefix p s ≡ true
unfolding has_prefix
has_prefix_weaken [] q s h = refl
has_prefix_weaken (c ∷ p) q [] h = h
has_prefix_weaken (c ∷ p) q (d ∷ s) h = ground (arith, h, has_prefix_weaken p q s)

abbrev IsPost : Text → Type 0
IsPost line = has_prefix (codes "POST ") line ≡ true

post : (path : Text) (line : Text) → has_prefix (codes "POST " ++ path) line ≡ true → IsPost line
post path line h = has_prefix_weaken (codes "POST ") path line h

module _ (strtoul : Text → ℕ × Text) (strtoull : Text → ℕ × Text) (sscanf : Text → List ℕ) where
  -- Reading needs nothing, a format its confirmation, and any other operation a POST.
  abbrev pub Allowed : Text → Op → Type 0
  Allowed line segments_list = Unit {0}
  Allowed line segment_records = Unit {0}
  Allowed line quick_format =
      (has_prefix (codes "POST ") line ≡ true)
      × (query_get_uint strtoull line (codes "confirm") ≡ some 1)
  Allowed line op = has_prefix (codes "POST ") line ≡ true

  -- The fields by which the slot is handed over are as they were.
  abbrev pub KeepsHandOver : AdminRequest → AdminRequest → Type 0
  KeepsHandOver slot req =
      (req.busy ≡ slot.busy)
      × (req.done ≡ slot.done)
      × (req.abandoned ≡ slot.abandoned)
      × (req.rc ≡ slot.rc)
      × (req.resp ≡ slot.resp)

  abbrev pub AllowedAction : AdminRequest → Text → Action → Type 0
  AllowedAction slot line (admin_call req timeout) = Allowed line req.op × KeepsHandOver slot req
  AllowedAction slot line (invalid_address req) = KeepsHandOver slot req
  AllowedAction slot line action = Unit {0}

  kept : (req : AdminRequest) → KeepsHandOver req req
  kept req = (refl, refl, refl, refl, refl)

  confirmed : (o : Option ℕ) → not (value_or 0 o == 1) ≡ false → o ≡ some 1
  confirmed none h = absurd (ground arith)
  confirmed (some v) h = let one : v ≡ 1 = ground arith in ap some one

  format_request-Allowed :
      (line : Text) (req : AdminRequest)
      → IsPost line
      → AllowedAction req line (format_request strtoull line req)
  unfolding format_request
  format_request-Allowed line req h =
      if_cases (AllowedAction req line)
        (not (value_or 0 (query_get_uint strtoull line (codes "confirm")) == 1)) (λ e. tt)
        (λ e. ((h, confirmed (query_get_uint strtoull line (codes "confirm")) e), kept req))

  address_request-Allowed :
      (s line : Text) (slot req : AdminRequest)
      → Allowed line req.op
      → KeepsHandOver slot req
      → AllowedAction slot line (address_request sscanf s req)
  unfolding address_request
  address_request-Allowed [] line slot req h k = (h, k)
  address_request-Allowed (c ∷ s) line slot req h k =
      let ip = (app_parse_ipv4 sscanf (c ∷ s) req.req_local_ip).1 in
      let req1 = record req { req_local_ip = ip } in
      if_cases (AllowedAction slot line) (app_parse_ipv4 sscanf (c ∷ s) req.req_local_ip).0
        {x = call (record req1 { req_have_local_ip = true })} {y = invalid_address req1}
        (λ e. (h, k)) (λ e. k)

  segment_path-prefix :
      (path line prefix : Text)
      → segment_is path (parse_segment_path strtoul line prefix) ≡ true
      → has_prefix prefix line ≡ true
  unfolding parse_segment_path
  segment_path-prefix path line prefix h = matched (has_prefix prefix line) _ h
    where
      matched :
          (t : Bool) (o : Option (ℕ × Text))
          → segment_is path (if not t then none else o) ≡ true
          → t ≡ true
      matched true o e = refl
      matched false o e = absurd (ground arith)

  post_Allowed :
      (line : Text) (req : AdminRequest)
      → AllowedAction req line (post_request strtoul strtoull sscanf line req)
  unfolding post_request start_request wire_has_seq_request local_ip_request
  post_Allowed line req =
      if_cases P (has_prefix (codes "POST /recording/start") line)
        {x = start_request strtoull line req}
        (λ t. (post (codes "/recording/start") line t, kept req))
        (λ e.
          if_cases P (has_prefix (codes "POST /recording/stop") line)
            {x = call (record req { op = recording_stop })}
            (λ t. (post (codes "/recording/stop") line t, kept req))
            (λ e.
              if_cases P (segment_is (codes "/delete") delete)
                {x = call (record req { op = segment_delete; req_segment_id = segment_id delete })}
                (λ t. (
                  post (codes "/segments/") line
                      (segment_path-prefix (codes "/delete") line (codes "POST /segments/") t),
                  kept req,
                ))
                (λ e.
                  if_cases P (has_prefix (codes "POST /quick-format") line)
                    {x = format_request strtoull line req}
                    (λ t. format_request-Allowed line req (post (codes "/quick-format") line t))
                    (λ e.
                      if_cases P (has_prefix (codes "POST /write-buffers") line)
                        {x = call buffers_req}
                        (λ t. (post (codes "/write-buffers") line t, kept req))
                        (λ e.
                          if_cases P (has_prefix (codes "POST /write-chunk") line)
                            {x = call chunk_req}
                            (λ t. (post (codes "/write-chunk") line t, kept req))
                            (λ e.
                              if_cases P (has_prefix (codes "POST /wire-has-seq") line)
                                {x = wire_has_seq_request strtoull line req}
                                (λ t. (post (codes "/wire-has-seq") line t, kept req))
                                (λ e.
                                  if_cases P (has_prefix (codes "POST /local-ip") line)
                                    {x = local_ip_request sscanf line req} {y = not_found}
                                    (λ t.
                                      address_request-Allowed (local_ip_text line) line req
                                        (record req { op = set_local_ip })
                                        (post (codes "/local-ip") line t) (kept req))
                                    (λ e. tt))))))))
    where
      P : Action → Type 0
      P = AllowedAction req line

      delete : Option (ℕ × Text)
      delete = parse_segment_path strtoul line (codes "POST /segments/")

      buffers_req : AdminRequest
      buffers_req = record req {
        op = set_write_buffers;
        req_write_buf_count = value_or 0 (query strtoull line "count") % 2 ^ 32;
      }

      chunk_req : AdminRequest
      chunk_req = record req {
        op = set_write_chunk;
        req_write_chunk_bytes = value_or 0 (query strtoull line "bytes") % 2 ^ 32;
      }

  -- A connection asks the reactor thread for an operation that changes anything only if its request
  -- line is a POST: any other line is answered with a page or an error, or asks for the list of
  -- segments or for the records of one. A quick format is asked for only by a POST that gives
  -- confirm=1. What it asks for it writes into the slot, free or not (so nothing is said of an
  -- operation that is still using the slot), but never the fields by which the slot is handed over.
  pub handle_connection-Allowed :
      (line : Text) (req : AdminRequest)
      → AllowedAction req line (handle_connection strtoul strtoull sscanf line req)
  unfolding handle_connection list_request records_request
  handle_connection-Allowed line req =
      if_cases P (has_prefix (codes "GET /status.json ") line) (λ e. tt)
        (λ e.
          if_cases P (has_prefix (codes "GET /eal.json ") line) (λ e. tt)
            (λ e.
              if_cases P (has_prefix (codes "GET / ") line) (λ e. tt)
                (λ e.
                  if_cases P (has_prefix (codes "GET /segments.json") line)
                    {x = list_request strtoull line req} (λ e. (tt, kept req))
                    (λ e.
                      if_cases P (segment_is (codes "/records.json") records)
                        {x = records_request strtoull (segment_id records) (after_id records) req}
                        (λ e. (tt, kept req)) (λ e. post_Allowed line req)))))
    where
      P : Action → Type 0
      P = AllowedAction req line

      records : Option (ℕ × Text)
      records = parse_segment_path strtoul line (codes "GET /segments/")
