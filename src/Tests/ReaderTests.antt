-- ===== src/Tests/ReaderTests.antt =====
-- Requests on concrete inputs.
use chrontabulator.Base.{
  ◌+◌, ◌<◌, arith, ◌≡◌, refl, List, [], ◌∷◌, ◌++◌, ◌==◌, if◌then◌else◌, length,
}
use chrontabulator.Reader.Admin.{chrono_admin_dispatch}
use chrontabulator.Reader.Admin.Guards.{session, chrono_admin_dispatch-session}
use chrontabulator.Base.Mem.{Mem}
use chrontabulator.Format.Chunk.{pad_chunk, dump_loop}
use chrontabulator.Format.Chunk.RoundTrip.{put_records, end_of}
use chrontabulator.Reader.Admin.{scan_loop}
use chrontabulator.Reader.Admin.Pages.{page_of, scan_loop-dump_loop}
use chrontabulator.Web.Query.{codes}
use chrontabulator.Reader.Reply.{
  RespBuf, Piece, formatted, hex, append_pieces, piece_text, answer_text, hex_text,
}
use chrontabulator.Reader.Reply.Bounds.{Within, append_pieces-Within}
use chrontabulator.Reader.Reply.Texts.{Prints, append_pieces-Prints}
use chrontabulator.Tests.FormatTests.{two_records}
use chrontabulator.Tests.Data.{recording_ctx}

chrono_admin_dispatch-session_example :
    session (chrono_admin_dispatch recording_ctx) ≡ session recording_ctx
chrono_admin_dispatch-session_example = chrono_admin_dispatch-session recording_ctx refl

abbrev two_record_chunk : Mem
two_record_chunk = pad_chunk (put_records (λ i. 255) 0 two_records) (end_of 0 two_records) 128

scan_loop-dump_loop_example :
    scan_loop 129 two_record_chunk 128 2 0 500 0 0 0
    ≡ page_of 0 (dump_loop 129 two_record_chunk 128 2 0 0)
scan_loop-dump_loop_example =
    scan_loop-dump_loop 129 two_record_chunk 128 2 0 500 0 0 0 (omega arith) (omega arith)
      (omega arith)

-- The answer for one record with a payload of three bytes, in a buffer of 48.
abbrev payload : Mem
payload i = if i == 0 then 0x1f else 0xa0

abbrev pieces : List Piece
pieces = formatted (codes "{\"payload_hex\":\"") ∷ hex payload 3 ∷ []

abbrev empty_buf : RespBuf
empty_buf = record { resp_buf = λ i. 255; resp_len = 0; resp_buf_cap = 48 }

append_pieces-Prints_example :
    Prints empty_buf
      (answer_text pieces ++ codes "\"}")
      (append_pieces (pieces ++ formatted (codes "\"}") ∷ []) empty_buf)
    × ((append_pieces (pieces ++ formatted (codes "\"}") ∷ []) empty_buf).resp_buf
          (0 + length (answer_text pieces ++ codes "\"}"))
        ≡ 0)
unfolding answer_text piece_text hex_text
append_pieces-Prints_example = append_pieces-Prints pieces (codes "\"}") empty_buf fits
  where
    fits : 0 + length (answer_text pieces ++ codes "\"}") < 48
    fits = omega arith

-- A payload that does not fit.
append_pieces-Within_example : Within empty_buf (append_pieces (hex payload 100 ∷ pieces) empty_buf)
append_pieces-Within_example =
    append_pieces-Within (hex payload 100 ∷ pieces) empty_buf (omega arith)
