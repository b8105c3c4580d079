-- ===== src/Wire/Address.antt =====
-- src/common.c: `app_parse_ipv4`. `sscanf` is a parameter: the numbers that the format
-- "%u.%u.%u.%u" converts from a text, at most four.
pub mod Octets
use chrontabulator.Base.{
  ℕ, suc, ◌+◌, ◌≤◌, ◌≡◌, refl, ap, ◌∙◌, ◌⊎◌, inl, inr, Bool, true, false, List, [], ◌∷◌, arith, ltb,
  ◌==◌, if◌then◌else◌, length, Bool-cases, if_true, if_false,
}
use chrontabulator.Base.Mem.{Mem, put_byte}

-- A C string: its bytes, without the terminating zero.
abbrev pub Text : Type 0
Text = List ℕ

-- The loop over the numbers; a number above 255 ends it, with the earlier ones stored.
unfoldable pub store_octets : List ℕ → Mem → ℕ → Bool × Mem
store_octets [] out i = (true, out)
store_octets (b ∷ bs) out i =
    let rest = store_octets bs (put_byte out i b) (suc i) in
    if ltb 255 b then (false, out) else rest

-- `true` stands for 0, `false` for -1.
unfoldable pub app_parse_ipv4 : (Text → List ℕ) → Text → Mem → Bool × Mem
app_parse_ipv4 sscanf s out =
    if length (sscanf s) == 4 then store_octets (sscanf s) out 0 else (false, out)
