-- ===== src/Reader/Admin/Deletion.antt =====
-- Deleting a segment (src/chrono_admin.c): the entry stays, but for its state.
use chrontabulator.Base.{ℕ, ◌+◌, ◌≤◌, ◌<◌, ◌≡◌, ◌⊎◌, inl, inr, refl, arith}
use chrontabulator.Base.Mem.{
  Mem, get_le, put_le, get_le-Agree, put_le_below, put_le_above, get_le-put_le,
}
use chrontabulator.Base.Fields.{load_fields}
use chrontabulator.Format.{load_segment, segment_deleted}
use chrontabulator.Reader.Admin.{mark_deleted}

others : (m : Mem) (n p : ℕ) → (p + n ≤ 12) ⊎ (16 ≤ p) → get_le n (mark_deleted m) p ≡ get_le n m p
unfolding mark_deleted
others m n p h = get_le-Agree n (mark_deleted m) m p (λ i a b. same i (apart i a b))
  where
    apart : (i : ℕ) → p ≤ i → i < p + n → (i < 12) ⊎ (16 ≤ i)
    apart i a b = ground arith

    same : (i : ℕ) → (i < 12) ⊎ (16 ≤ i) → put_le 4 m 12 segment_deleted i ≡ m i
    same i (inl below) = put_le_below 4 m 12 segment_deleted i below
    same i (inr above) = put_le_above 4 m 12 segment_deleted i above

state : (m : Mem) → get_le 4 (mark_deleted m) 12 ≡ segment_deleted
unfolding mark_deleted
state m = get_le-put_le 4 m 12 segment_deleted (omega arith)

-- The entry that a deletion writes back has the state DELETED and, decoded field by field, every
-- other field as it was.
pub load_segment-mark_deleted :
    (m : Mem) → load_segment (mark_deleted m) ≡ record (load_segment m) { state = segment_deleted }
unfolding load_segment load_fields
load_segment-mark_deleted m =
    rw
      (
        others m 8 0 (inl (omega arith)),
        others m 4 8 (inl (omega arith)),
        others m 8 16 (inr (omega arith)),
        others m 8 24 (inr (omega arith)),
        others m 4 32 (inr (omega arith)),
        others m 8 40 (inr (omega arith)),
        others m 8 48 (inr (omega arith)),
        others m 8 56 (inr (omega arith)),
        others m 8 64 (inr (omega arith)),
        others m 8 72 (inr (omega arith)),
        others m 8 80 (inr (omega arith)),
        others m 4 88 (inr (omega arith)),
        others m 8 96 (inr (omega arith)),
        others m 4 104 (inr (omega arith)),
        state m,
      )
      refl
