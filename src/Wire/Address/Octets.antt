-- ===== src/Wire/Address/Octets.antt =====
-- Which texts `app_parse_ipv4` of src/common.c accepts.
use chrontabulator.Base.{
  ◌⊎◌, inl, inr, Bool-cases, ℕ, ◌≤◌, ◌≡◌, refl, ap, ◌∙◌, Bool, true, false, List, [], ◌∷◌, arith,
  ltb, ◌==◌, if◌then◌else◌, length, if_true, if_false, le→ltb, ==_iff,
}
use chrontabulator.Base.Mem.{Mem, put_byte}
use chrontabulator.Wire.Address.{Text, app_parse_ipv4, store_octets}

-- Four numbers of at most a byte each.
pub record AreOctets (ns : List ℕ) (a b c d : ℕ) : Type 0 where
  pub four : ns ≡ a ∷ b ∷ c ∷ d ∷ []
  pub first : a ≤ 255
  pub second : b ≤ 255
  pub third : c ≤ 255
  pub fourth : d ≤ 255

abbrev pub stored : Mem → ℕ → ℕ → ℕ → ℕ → Mem
stored out a b c d = put_byte (put_byte (put_byte (put_byte out 0 a) 1 b) 2 c) 3 d

store_octets-four :
    (ns : List ℕ) (out : Mem) (a b c d : ℕ)
    → AreOctets ns a b c d
    → store_octets ns out 0 ≡ (true, stored out a b c d)
unfolding store_octets
store_octets-four ns out a b c d h = rw h.four (
    if_false (ltb 255 a) _ _ (le→ltb 255 a h.first)
    ∙ if_false (ltb 255 b) _ _ (le→ltb 255 b h.second)
    ∙ if_false (ltb 255 c) _ _ (le→ltb 255 c h.third)
    ∙ if_false (ltb 255 d) _ _ (le→ltb 255 d h.fourth))

store_octets-accepted :
    (ns : List ℕ) (out : Mem)
    → (length ns == 4) ≡ true
    → (store_octets ns out 0).0 ≡ true
    → (a : ℕ) × (b : ℕ) × (c : ℕ) × (d : ℕ) × AreOctets ns a b c d
unfolding store_octets
store_octets-accepted (a ∷ b ∷ c ∷ d ∷ []) out h e = (
  a,
  b,
  c,
  d,
  record {
    four = refl;
    first = ground arith;
    second = ground arith;
    third = ground arith;
    fourth = ground arith;
  },
)
store_octets-accepted [] out h e = absurd (ground arith)
store_octets-accepted (a ∷ []) out h e = absurd (ground arith)
store_octets-accepted (a ∷ b ∷ []) out h e = absurd (ground arith)
store_octets-accepted (a ∷ b ∷ c ∷ []) out h e = absurd (ground arith)
store_octets-accepted (a ∷ b ∷ c ∷ d ∷ x ∷ ns) out h e = absurd (ground arith)

four-accepted :
    (sscanf : Text → List ℕ) (s : Text) (out : Mem) (a b c d : ℕ)
    → AreOctets (sscanf s) a b c d
    → app_parse_ipv4 sscanf s out ≡ (true, stored out a b c d)
unfolding app_parse_ipv4
four-accepted sscanf s out a b c d h =
    if_true (length (sscanf s) == 4) _ _ ((==_iff (length (sscanf s)) 4).1 (ap length h.four))
    ∙ store_octets-four (sscanf s) out a b c d h

accepted-AreOctets :
    (sscanf : Text → List ℕ) (s : Text) (out : Mem)
    → (app_parse_ipv4 sscanf s out).0 ≡ true
    → (a : ℕ) × (b : ℕ) × (c : ℕ) × (d : ℕ) × AreOctets (sscanf s) a b c d
unfolding app_parse_ipv4
accepted-AreOctets sscanf s out = accepted (length (sscanf s) == 4) refl
  where
    accepted :
        (t : Bool)
        → (length (sscanf s) == 4) ≡ t
        → (if t then store_octets (sscanf s) out 0 else (false, out)).0 ≡ true
        → (a : ℕ) × (b : ℕ) × (c : ℕ) × (d : ℕ) × AreOctets (sscanf s) a b c d
    accepted true h e = store_octets-accepted (sscanf s) out h e
    accepted false h e = absurd (ground arith)

-- An address is accepted exactly where four numbers of at most 255 are converted from the text;
-- then they are stored in order, and nothing else is changed.
pub app_parse_ipv4-AreOctets :
    (sscanf : Text → List ℕ) (s : Text) (out : Mem)
    → ((a : ℕ) × (b : ℕ) × (c : ℕ) × (d : ℕ) × AreOctets (sscanf s) a b c d
        × (app_parse_ipv4 sscanf s out ≡ (true, stored out a b c d)))
      ⊎ (((a b c d : ℕ) → ¬ AreOctets (sscanf s) a b c d)
          × ((app_parse_ipv4 sscanf s out).0 ≡ false))
app_parse_ipv4-AreOctets sscanf s out = elim (Bool-cases (app_parse_ipv4 sscanf s out).0) [
  | inl accepted ↦
      let (a, b, c, d, h) = accepted-AreOctets sscanf s out accepted in
      inl (a, b, c, d, h, four-accepted sscanf s out a b c d h)
  | inr refused ↦ inr (
    λ a b c d h.
        let accepted = ap (λ (r : Bool × Mem). r.0) (four-accepted sscanf s out a b c d h) in
        absurd (ground arith),
    refused,
  )
]
