-- ===== src/Web/Query/Scan.antt =====
-- The query readers of src/web_status.c end, and what they copy fits its buffer.
use mathlib.Core.Option.{some-injective}
use chrontabulator.Base.{
  ℕ, zero, suc, ◌≤◌, ◌<◌, ◌≡◌, refl, ap, Bool, true, false, arith, Option, none, some, [], ◌∷◌,
  ◌==◌, if◌then◌else◌, if_cong, length,
}
use chrontabulator.Wire.Address.{Text}
use chrontabulator.Web.Query.{
  after_char, at_end, number_at, next_pair, uint_scan, query_get_uint, is_key, str_scan,
  query_get_str,
}

after_char-shorter : (c : ℕ) (s r : Text) → after_char c s ≡ some r → length r < length s
unfolding after_char
after_char-shorter c [] r e = absurd (ground arith)
after_char-shorter c (d ∷ s) r e = found (d == c) e (after_char-shorter c s r)
  where
    found :
        (t : Bool)
        → (if t then some s else after_char c s) ≡ some r
        → (after_char c s ≡ some r → length r < length s)
        → length r < suc (length s)
    found true h further = let same = ap length (some-injective s r h) in omega arith
    found false h further = omega (arith, further h)

module _ (strtoull : Text → ℕ × Text) (key : Text) where
  uint_scan-fuel :
      (n m : ℕ) (q : Text)
      → length q ≤ n
      → length q ≤ m
      → uint_scan strtoull n key q ≡ uint_scan strtoull m key q
  unfolding uint_scan
  uint_scan-fuel zero zero q h k = refl
  uint_scan-fuel zero (suc m) [] h k = refl
  uint_scan-fuel zero (suc m) (c ∷ q) h k = absurd (omega arith)
  uint_scan-fuel (suc n) zero [] h k = refl
  uint_scan-fuel (suc n) zero (c ∷ q) h k = absurd (omega arith)
  uint_scan-fuel (suc n) (suc m) q h k =
      if_cong (at_end q) (λ e. refl)
        (λ e.
          by_number (number_at strtoull key q)
            (λ r shorter. uint_scan-fuel n m r (omega arith) (omega arith)))
    where
      by_next :
          (o : Option Text)
          → ((r : Text)
              → length r < length q
              → uint_scan strtoull n key r ≡ uint_scan strtoull m key r)
          → next_pair q ≡ o
          → Path
              (Option ℕ)
              (elim o [ none ↦ none | some r ↦ uint_scan strtoull n key r ])
              (elim o [ none ↦ none | some r ↦ uint_scan strtoull m key r ])
      by_next none again e = refl
      by_next (some r) again e = again r (after_char-shorter b'&' q r e)

      by_number :
          (o : Option ℕ)
          → ((r : Text)
              → length r < length q
              → uint_scan strtoull n key r ≡ uint_scan strtoull m key r)
          → Path
              (Option ℕ)
              (elim o [
                | some v ↦ some v
                | none ↦ elim (next_pair q) [ none ↦ none | some r ↦ uint_scan strtoull n key r ]
              ])
              (elim o [
                | some v ↦ some v
                | none ↦ elim (next_pair q) [ none ↦ none | some r ↦ uint_scan strtoull m key r ]
              ])
      by_number (some v) again = refl
      by_number none again = by_next (next_pair q) again refl

module _ (key : Text) (size : ℕ) where
  str_scan-fuel :
      (n m : ℕ) (q : Text)
      → length q ≤ n
      → length q ≤ m
      → str_scan n key size q ≡ str_scan m key size q
  unfolding str_scan
  str_scan-fuel zero zero q h k = refl
  str_scan-fuel zero (suc m) [] h k = refl
  str_scan-fuel zero (suc m) (c ∷ q) h k = absurd (omega arith)
  str_scan-fuel (suc n) zero [] h k = refl
  str_scan-fuel (suc n) zero (c ∷ q) h k = absurd (omega arith)
  str_scan-fuel (suc n) (suc m) q h k =
      if_cong (at_end q) (λ e. refl)
        (λ e.
          if_cong (is_key key q) (λ f. refl)
            (λ f.
              by_next (next_pair q) (λ r shorter. str_scan-fuel n m r (omega arith) (omega arith))
                refl))
    where
      by_next :
          (o : Option Text)
          → ((r : Text) → length r < length q → str_scan n key size r ≡ str_scan m key size r)
          → next_pair q ≡ o
          → Path
              (Option Text)
              (elim o [ none ↦ none | some r ↦ str_scan n key size r ])
              (elim o [ none ↦ none | some r ↦ str_scan m key size r ])
      by_next none again e = refl
      by_next (some r) again e = again r (after_char-shorter b'&' q r e)

-- Both readers end after as many rounds as the text has characters: any more give the same.
pub query-fuel :
    (strtoull : Text → ℕ × Text) (rest key : Text) (size fuel : ℕ)
    → length rest ≤ fuel
    → (query_get_uint strtoull rest key
        ≡ elim (after_char b'?' rest) [ none ↦ none | some q ↦ uint_scan strtoull fuel key q ])
      × (query_get_str rest key size
          ≡ elim (after_char b'?' rest) [ none ↦ none | some q ↦ str_scan fuel key size q ])
unfolding query_get_uint query_get_str
query-fuel strtoull rest key size fuel h =
    (numbers (after_char b'?' rest) refl, strings (after_char b'?' rest) refl)
  where
    numbers :
        (o : Option Text)
        → after_char b'?' rest ≡ o
        → Path
            (Option ℕ)
            (elim o [ none ↦ none | some q ↦ uint_scan strtoull (length q) key q ])
            (elim o [ none ↦ none | some q ↦ uint_scan strtoull fuel key q ])
    numbers none e = refl
    numbers (some q) e =
        let shorter = after_char-shorter b'?' rest q e in
        uint_scan-fuel strtoull key (length q) fuel q (omega arith) (omega arith)

    strings :
        (o : Option Text)
        → after_char b'?' rest ≡ o
        → Path
            (Option Text)
            (elim o [ none ↦ none | some q ↦ str_scan (length q) key size q ])
            (elim o [ none ↦ none | some q ↦ str_scan fuel key size q ])
    strings none e = refl
    strings (some q) e =
        let shorter = after_char-shorter b'?' rest q e in
        str_scan-fuel key size (length q) fuel q (omega arith) (omega arith)
