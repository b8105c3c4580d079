-- ===== src/Wire/Frame/Bounds.antt =====
-- app_parse_packet of src/common.c reads and hands out only bytes of the frame.
use chrontabulator.Base.{
  ℕ, ◌+◌, ◌*◌, ◌%◌, ◌≤◌, ◌≡◌, Bool, true, false, ltb, ◌||◌, inl, inr, lt_cases, arith, Bool-cases,
  ◌||◌, ◌||◌,
}
use chrontabulator.Base.Mem.{Mem, Agree}
use chrontabulator.Wire.Bytes.{get_be16, get_be64-Agree}
use chrontabulator.Wire.Frame.{parse_udp, app_parse_packet}

get_be16-Agree :
    (m m' : Mem) (len p : ℕ) → Agree m m' 0 len → p + 2 ≤ len → get_be16 m p ≡ get_be16 m' p
get_be16-Agree m m' len p h k =
    omega (arith, h p (omega arith) (omega arith), h (p + 1) (omega arith) (omega arith))

parse_udp-Agree :
    (m m' : Mem) (len : ℕ) (with_seq : Bool) (n : ℕ)
    → Agree m m' 0 len
    → 22 + n ≤ len
    → parse_udp m len with_seq n ≡ parse_udp m' len with_seq n
unfolding parse_udp
parse_udp-Agree m m' len false n h k = rw (
  get_be16-Agree m m' len (14 + n + 4) h (omega arith),
  get_be16-Agree m m' len (14 + n + 2) h (omega arith),
)
parse_udp-Agree m m' len true n h k =
    rw
      (
        get_be16-Agree m m' len (14 + n + 4) h (omega arith),
        get_be16-Agree m m' len (14 + n + 2) h (omega arith),
      )
      (elim (Bool-cases
        (ltb (get_be16 m' (14 + n + 4)) 16 || ltb len (14 + n + get_be16 m' (14 + n + 4)))) [
          | inl short ↦ rw short
          | inr enough ↦
              rw (
                enough,
                get_be64-Agree m m' (14 + n + 8) (λ i a b. h i (omega arith) (ground arith)),
              )
        ])

-- The result depends on no byte outside the frame: nothing past `len` is read.
pub parse-Agree :
    (m m' : Mem) (len : ℕ) (with_seq : Bool)
    → Agree m m' 0 len
    → app_parse_packet m len with_seq ≡ app_parse_packet m' len with_seq
unfolding app_parse_packet
parse-Agree m m' len with_seq h = elim (lt_cases len 34) [
  | inl short ↦ ground arith
  | inr room ↦
      let e12 : get_be16 m 12 ≡ get_be16 m' 12 = get_be16-Agree m m' len 12 h (omega arith) in
      let e14 : m 14 ≡ m' 14 = h 14 (omega arith) (omega arith) in
      let e23 : m 23 ≡ m' 23 = h 23 (omega arith) (omega arith) in
      rw (e12, e14, e23)
        (elim (Bool-cases (ltb (m' 14 % 16 * 4) 20 || ltb len (14 + m' 14 % 16 * 4 + 8))) [
          | inl short ↦ rw short
          | inr enough ↦ rw (parse_udp-Agree m m' len with_seq (m' 14 % 16 * 4) h (ground arith))
        ])
]
