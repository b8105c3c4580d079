-- ===== src/Base/Fields.antt =====
-- C structs in memory: a layout lists the offset and the width of each field. Bytes between
-- fields (the compiler's padding) are neither read nor written.
use chrontabulator.Base.{ℕ, ◌+◌, ◌^◌, ◌≤◌, ◌<◌, ◌≡◌, refl, ap₂, ap, sym, List, [], ◌∷◌, arith, ◌∙◌}
use chrontabulator.Base.Mem.{
  Mem, get_le, put_le, get_le-Agree, get_le_shift, get_le-put_le, put_le_below, put_le_above,
}

abbrev pub Layout : Type 0
Layout = List (ℕ × ℕ)

unfoldable pub load_fields : Layout → Mem → ℕ → List ℕ
load_fields [] m p = []
load_fields ((o, w) ∷ l) m p = get_le w m (p + o) ∷ load_fields l m p

unfoldable pub store_fields : Layout → List ℕ → Mem → ℕ → Mem
store_fields [] vs m p = m
store_fields ((o, w) ∷ l) [] m p = m
store_fields ((o, w) ∷ l) (v ∷ vs) m p = store_fields l vs (put_le w m (p + o) v) p

-- The fields stand in order, from `from` on and below `size`.
abbrev pub IsLayout : ℕ → Layout → ℕ → Type 0
IsLayout from [] size = from ≤ size
IsLayout from ((o, w) ∷ l) size = (from ≤ o) × IsLayout (o + w) l size

-- Each value fits its field.
abbrev pub FitFields : Layout → List ℕ → Type 0
FitFields [] [] = Unit {0}
FitFields [] (v ∷ vs) = ⊥
FitFields (f ∷ l) [] = ⊥
FitFields ((o, w) ∷ l) (v ∷ vs) = (v < 256 ^ w) × FitFields l vs

pub store_fields_below :
    (l : Layout) (vs : List ℕ) (m : Mem) (p from size i : ℕ)
    → IsLayout from l size
    → i < p + from
    → store_fields l vs m p i ≡ m i
unfolding store_fields
store_fields_below [] vs m p from size i s h = refl
store_fields_below ((o, w) ∷ l) [] m p from size i s h = refl
store_fields_below ((o, w) ∷ l) (v ∷ vs) m p from size i s h =
    store_fields_below l vs (put_le w m (p + o) v) p (o + w) size i s.1 (omega arith)
    ∙ put_le_below w m (p + o) v i (omega arith)

size_bound : (l : Layout) (from size : ℕ) → IsLayout from l size → from ≤ size
size_bound [] from size s = s
size_bound ((o, w) ∷ l) from size s = omega (arith, size_bound l (o + w) size s.1)

pub store_fields_above :
    (l : Layout) (vs : List ℕ) (m : Mem) (p from size i : ℕ)
    → IsLayout from l size
    → p + size ≤ i
    → store_fields l vs m p i ≡ m i
unfolding store_fields
store_fields_above [] vs m p from size i s h = refl
store_fields_above ((o, w) ∷ l) [] m p from size i s h = refl
store_fields_above ((o, w) ∷ l) (v ∷ vs) m p from size i s h =
    store_fields_above l vs (put_le w m (p + o) v) p (o + w) size i s.1 h
    ∙ put_le_above w m (p + o) v i (omega (arith, size_bound l (o + w) size s.1))

pub load_fields-Agree :
    (l : Layout) (m m' : Mem) (p q from size : ℕ)
    → IsLayout from l size
    → ((i : ℕ) → i < size → m (p + i) ≡ m' (q + i))
    → load_fields l m p ≡ load_fields l m' q
unfolding load_fields
load_fields-Agree [] m m' p q from size s h = refl
load_fields-Agree ((o, w) ∷ l) m m' p q from size s h =
    ap₂ ◌∷◌
      (get_le_shift w m m' (p + o) (q + o)
        (λ i k. shifted i (omega (arith, size_bound l (o + w) size s.1))))
      (load_fields-Agree l m m' p q (o + w) size s.1 h)
  where
    shifted : (i : ℕ) → o + i < size → m (p + o + i) ≡ m' (q + o + i)
    shifted i k =
        let a : p + o + i ≡ p + (o + i) = omega arith in
        let b : q + o + i ≡ q + (o + i) = omega arith in ap m a ∙ h (o + i) k ∙ ap m' (sym b)

-- What is stored is loaded again.
pub load_fields-store_fields :
    (l : Layout) (vs : List ℕ) (m : Mem) (p from size : ℕ)
    → IsLayout from l size
    → FitFields l vs
    → load_fields l (store_fields l vs m p) p ≡ vs
unfolding load_fields store_fields
load_fields-store_fields [] [] m p from size s f = refl
load_fields-store_fields [] (v ∷ vs) m p from size s f = elim f [ ]
load_fields-store_fields (x ∷ l) [] m p from size s f = elim f [ ]
load_fields-store_fields ((o, w) ∷ l) (v ∷ vs) m p from size s f =
    ap₂ ◌∷◌
      (get_le-Agree w (store_fields l vs (put_le w m (p + o) v) p) (put_le w m (p + o) v) (p + o)
          (λ i a b.
            store_fields_below l vs (put_le w m (p + o) v) p (o + w) size i s.1 (omega arith))
        ∙ get_le-put_le w m (p + o) v f.0)
      (load_fields-store_fields l vs (put_le w m (p + o) v) p (o + w) size s.1 f.1)
