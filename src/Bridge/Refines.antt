-- ===== src/Bridge/Refines.antt =====
-- The hand-over of requests (src/chrono_admin.c) against what it promises: one request at a time,
-- whose caller waits for an answer or has gone.
use chrontabulator.Base.{◌+◌, ◌<◌, ◌≡◌, ◌⊎◌, Bool, true, false}
use chrontabulator.Ctx.{Rc, AdminRequest}
use chrontabulator.Bridge.{Bridge, Caller, elsewhere, waiting}

-- What the slot promises: it is free, a request in it waits for an answer, an answer waits for the
-- caller, or the caller has gone and the next answer will only free the slot.
pub data Slot : Type 0 where
  free pending orphaned : Slot
  answered : Rc → Slot

pub data Move : Slot → Slot → Type 0 where
  accept : Move free pending
  answer : (rc : Rc) → Move pending (answered rc)
  answer_again : (rc rc' : Rc) → Move (answered rc) (answered rc')
  return : (rc : Rc) → Move (answered rc) free
  give_up : Move pending orphaned
  discard : Move orphaned free

-- How the slot and its caller realise it.
abbrev pub Shape : Bridge → Bool → Caller → Type 0
Shape b busy caller = (b.req.busy ≡ busy) × (b.caller ≡ caller)

pub data Realises : Slot → Bridge → Type 0 where
  is_free : (b : Bridge) → Shape b false elsewhere → Realises free b
  is_pending :
      (b : Bridge)
      → Shape b true waiting
      → b.req.done ≡ false
      → b.req.abandoned ≡ false
      → 0 < b.messages + b.operations
      → Realises pending b
  is_answered :
      (b : Bridge) (rc : Rc)
      → Shape b true waiting
      → b.req.done ≡ true
      → b.req.abandoned ≡ false
      → b.req.rc ≡ rc
      → Realises (answered rc) b
  is_orphaned :
      (b : Bridge)
      → Shape b true elsewhere
      → b.req.done ≡ false
      → b.req.abandoned ≡ true
      → 0 < b.messages + b.operations
      → Realises orphaned b

-- A step of the threads is no move of the slot, or one.
abbrev pub AnsweredBy : Slot → Bridge → Type 0
AnsweredBy s b = Realises s b ⊎ ((t : Slot) × (Move s t × Realises t b))

-- A call that is let in finds the slot free, and clears its flags.
record Begun (req r : AdminRequest) : Type 0 where
  was_free : req.busy ≡ false
  busy : r.busy ≡ true
  done : r.done ≡ false
  abandoned : r.abandoned ≡ false
