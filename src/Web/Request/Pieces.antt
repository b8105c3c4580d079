-- ===== src/Web/Request/Pieces.antt =====
-- The request line (src/web_status.c, `read_request_line`) does not depend on the pieces in which
-- the connection delivers the bytes.
use chrontabulator.Base.{
  ℕ, zero, suc, ◌-◌, ◌≤◌, ◌<◌, ◌≡◌, refl, ap, ◌∙◌, Bool, true, false, ◌&&◌, Option, none, some,
  List, [], ◌∷◌, ◌++◌, ◌==◌, length, arith,
}
use chrontabulator.Wire.Address.{Text}
use chrontabulator.Web.Query.{has_prefix, drop, take, length-take}
use chrontabulator.Web.Request.{prepend, strstr, found, put_back, recv, cut_line, is_empty}

-- What is delivered before the end.
unfoldable pub received : List Text → Text
received [] = []
received ([] ∷ ps) = []
received ((c ∷ s) ∷ ps) = (c ∷ s) ++ received ps

-- The line that a search has found, cut to its buffer.
abbrev pub line_of : Option Text → Text
line_of none = []
line_of (some s) = cut_line s

-- A longer text starts as the shorter one does.
prefix-append : (n s t : Text) → length n ≤ length s → has_prefix n (s ++ t) ≡ has_prefix n s
unfolding has_prefix
prefix-append [] s t h = refl
prefix-append (c ∷ n) [] t h = absurd (omega arith)
prefix-append (c ∷ n) (d ∷ s) t h =
    ap (λ (b : Bool). c == d && b) (prefix-append n s t (omega arith))

prefix-length : (n s : Text) → has_prefix n s ≡ true → length n ≤ length s
unfolding has_prefix
prefix-length [] s h = omega arith
prefix-length (c ∷ n) [] h = absurd (ground arith)
prefix-length (c ∷ n) (d ∷ s) h = ground (arith, prefix-length n s)

prefix-left : (n m s : Text) → has_prefix (n ++ m) s ≡ true → has_prefix n s ≡ true
unfolding has_prefix
prefix-left [] m s h = refl
prefix-left (c ∷ n) m [] h = h
prefix-left (c ∷ n) m (d ∷ s) h = ground (arith, prefix-left n m s)

found-prepend : (c : ℕ) (o : Option Text) → found (prepend c o) ≡ found o
found-prepend c none = refl
found-prepend c (some s) = refl

strstr-length : (n s : Text) → found (strstr n s) ≡ true → length n ≤ length s
unfolding strstr
strstr-length n [] h = absurd (ground arith)
strstr-length n (c ∷ s) h =
    ground (arith, prefix-length n (c ∷ s), found-prepend c (strstr n s), strstr-length n s)

-- What is found in a text is found in a longer one, at the same place.
pub strstr-append : (n s t : Text) → found (strstr n s) ≡ true → strstr n (s ++ t) ≡ strstr n s
unfolding strstr
strstr-append n [] t h = absurd (ground arith)
strstr-append n (c ∷ s) t h = ground (
  arith,
  prefix-append n (c ∷ s) t,
  prefix-length n (c ∷ s),
  found-prepend c (strstr n s),
  strstr-length n s,
  strstr-append n s t,
)

-- The end of the header fields contains an end of line.
pub strstr-left : (n m s : Text) → found (strstr (n ++ m) s) ≡ true → found (strstr n s) ≡ true
unfolding strstr
strstr-left n m [] h = h
strstr-left n m (c ∷ s) h = ground (
  arith,
  prefix-left n m (c ∷ s),
  found-prepend c (strstr n s),
  found-prepend c (strstr (n ++ m) s),
  strstr-left n m s,
)

-- A text taken in two pieces.
take-append :
    (n : ℕ) (p q : Text)
    → take n p ++ take (n - length (take n p)) (drop n p ++ q) ≡ take n (p ++ q)
unfolding take drop
take-append zero p q = refl
take-append (suc n) [] q = ap (λ (k : ℕ). take k q) {y = suc n} (omega arith)
take-append (suc n) (c ∷ p) q =
    ap (λ (s : Text). c ∷ s)
      (ap (λ (k : ℕ). take n p ++ take k (drop n p ++ q)) {y = n - length (take n p)} (omega arith)
        ∙ take-append n p q)

received-put_back : (s : Text) (ps : List Text) → received (put_back s ps) ≡ s ++ received ps
unfolding received
received-put_back [] ps = refl
received-put_back (c ∷ s) ps = refl

take_nil : (n : ℕ) → take n [] ≡ []
unfolding take
take_nil zero = refl
take_nil (suc n) = refl

-- A call of `recv` that delivers something, and one that does not.
pub recv_more :
    (n : ℕ) (ps : List Text)
    → is_empty (recv n ps).0 ≡ false
    → (recv n ps).0 ++ take (n - length (recv n ps).0) (received (recv n ps).1)
      ≡ take n (received ps)
unfolding recv received
recv_more n [] h = absurd (ground arith)
recv_more n ([] ∷ ps) h = absurd (ground (arith, take_nil n))
recv_more n ((c ∷ s) ∷ ps) h =
    ap (λ (t : Text). take n (c ∷ s) ++ take (n - length (take n (c ∷ s))) t)
      (received-put_back (drop n (c ∷ s)) ps)
    ∙ take-append n (c ∷ s) (received ps)

pub recv_end :
    (n : ℕ) (ps : List Text) → 0 < n → is_empty (recv n ps).0 ≡ true → take n (received ps) ≡ []
unfolding recv received take
recv_end n [] p h = take_nil n
recv_end n ([] ∷ ps) p h = take_nil n
recv_end zero ((c ∷ s) ∷ ps) p h = absurd (omega arith)
recv_end (suc n) ((c ∷ s) ∷ ps) p h = absurd (ground arith)

pub recv-length : (n : ℕ) (ps : List Text) → length (recv n ps).0 ≤ n
unfolding recv
recv-length n [] = omega arith
recv-length n (p ∷ ps) = length-take n p
