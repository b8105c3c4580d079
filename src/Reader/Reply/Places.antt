-- ===== src/Reader/Reply/Places.antt =====
-- Texts in memory: what writing one changes, and reading it back (src/chrono_admin.c, `resp_buf`).
use chrontabulator.Base.{
  ℕ, zero, suc, ◌+◌, ◌*◌, ◌/◌, ◌%◌, ◌≤◌, ◌<◌, ◌≡◌, refl, ap, ap₂, ◌∙◌, [], ◌∷◌, ◌++◌, length, arith,
}
use chrontabulator.Base.Mem.{Mem, put_byte, Agree}
use chrontabulator.Wire.Address.{Text}
use chrontabulator.Web.Query.{take}
use chrontabulator.Reader.Reply.{put_text, put_hex, hex_text, hex_digit}

-- The `n` bytes from `p` on.
unfoldable pub text_at : Mem → ℕ → ℕ → Text
text_at m p zero = []
text_at m p (suc n) = m p ∷ text_at m (p + 1) n

pub text_at-Agree : (m m' : Mem) (p n : ℕ) → Agree m m' p n → text_at m p n ≡ text_at m' p n
unfolding text_at
text_at-Agree m m' p zero h = refl
text_at-Agree m m' p (suc n) h = λ i.
    h p (omega arith) (omega arith) i
    ∷ text_at-Agree m m' (p + 1) n (λ j a b. h j (omega arith) (omega arith)) i

pub text_at-add : (m : Mem) (p a b : ℕ) → text_at m p (a + b) ≡ text_at m p a ++ text_at m (p + a) b
unfolding text_at
text_at-add m p zero b = ap₂ (λ (q k : ℕ). text_at m q k) {y = p + 0} (omega arith) (omega arith)
text_at-add m p (suc a) b =
    ap (λ (k : ℕ). text_at m p k) {y = suc (a + b)} (omega arith)
    ∙ ap (λ (s : Text). m p ∷ s)
        (text_at-add m (p + 1) a b
          ∙ ap (λ (q : ℕ). text_at m (p + 1) a ++ text_at m q b) {y = p + suc a} (omega arith))

pub put_text_below : (m : Mem) (p : ℕ) (s : Text) (i : ℕ) → i < p → put_text m p s i ≡ m i
unfolding put_text
put_text_below m p [] i h = refl
put_text_below m p (c ∷ s) i h =
    put_text_below (put_byte m p c) (p + 1) s i (omega arith) ∙ ground arith

pub put_text_above :
    (m : Mem) (p : ℕ) (s : Text) (i : ℕ) → p + length s ≤ i → put_text m p s i ≡ m i
unfolding put_text
put_text_above m p [] i h = refl
put_text_above m p (c ∷ s) i h =
    put_text_above (put_byte m p c) (p + 1) s i (omega arith) ∙ ground arith

pub text_at-put_text : (m : Mem) (p : ℕ) (s : Text) → text_at (put_text m p s) p (length s) ≡ s
unfolding put_text text_at
text_at-put_text m p [] = refl
text_at-put_text m p (c ∷ s) = λ i.
    (put_text_below (put_byte m p c) (p + 1) s p (omega arith) ∙ put_here m p c) i
    ∷ text_at-put_text (put_byte m p c) (p + 1) s i
  where
    put_here : (m : Mem) (p c : ℕ) → put_byte m p c p ≡ c
    put_here m p c = ground arith

pub put_hex-put_text :
    (n : ℕ) (m : Mem) (p : ℕ) (payload : Mem) (q : ℕ)
    → put_hex n m p payload q ≡ put_text m p (hex_text n payload q)
unfolding put_hex put_text hex_text
put_hex-put_text zero m p payload q = refl
put_hex-put_text (suc n) m p payload q =
    let m' =
      put_byte (put_byte m p (hex_digit (payload q / 16))) (p + 1) (hex_digit (payload q % 16)) in
    put_hex-put_text n m' (p + 2) payload (q + 1)
    ∙ ap (λ (r : ℕ). put_text m' r (hex_text n payload (q + 1))) {y = p + 1 + 1} (omega arith)

pub length-hex_text : (n : ℕ) (payload : Mem) (q : ℕ) → length (hex_text n payload q) ≡ n * 2
unfolding hex_text
length-hex_text zero payload q = refl
length-hex_text (suc n) payload q = omega (arith, length-hex_text n payload (q + 1))

pub take_all : (n : ℕ) (s : Text) → length s ≤ n → take n s ≡ s
unfolding take
take_all zero [] h = refl
take_all zero (c ∷ s) h = absurd (omega arith)
take_all (suc n) [] h = refl
take_all (suc n) (c ∷ s) h = ap (λ (t : Text). c ∷ t) (take_all n s (omega arith))
