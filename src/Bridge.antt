-- ===== src/Bridge.antt =====
-- src/chrono_admin.c: handing a request from the web server's thread to the reactor thread and its
-- answer back, through the one slot. Each step below holds the slot's lock once, or is a message
-- between the threads; what the steps may do in turn is `Step`.
pub mod Refines
use chrontabulator.Base.{ℕ, suc, ◌≡◌, Bool, true, false, Option, none, some, [], if◌then◌else◌}
use chrontabulator.Ctx.{Rc, ok, err, etimedout, AdminRequest}
use chrontabulator.Ctx.Device.{fulfill_request}

-- The head of `chrono_admin_call`; `none` is -EBUSY.
unfoldable pub begin_call : AdminRequest → Option AdminRequest
begin_call req =
    if req.busy
    then none
    else some (record req { busy = true; done = false; abandoned = false; resp = [] })

-- Its end, once the wait is over: an answer frees the slot, none leaves it to the reactor thread.
unfoldable pub end_call : AdminRequest → Rc × AdminRequest
end_call req =
    if req.done
    then (ok, record req { busy = false })
    else (err etimedout, record req { abandoned = true })

-- Whether the web server's thread is inside `chrono_admin_call`.
pub data Caller : Type 0 where
  elsewhere waiting : Caller

-- The slot, its caller, the messages sent to the reactor thread, and the operations that it has
-- begun and not answered.
pub record Bridge : Type 0 where
  pub req : AdminRequest
  pub caller : Caller
  pub messages : ℕ
  pub operations : ℕ

-- The steps of the two threads. An operation that was begun may answer, and the daemon answers
-- besides whenever a recording that it stops on its own (for the count, the end of the device or
-- failures) is finalized, whatever is in the slot then. The wait ends when there is an answer or
-- when the time is up.
pub data Step : Bridge → Bridge → Type 0 where
  call :
      (b : Bridge) (r : AdminRequest)
      → b.caller ≡ elsewhere
      → begin_call b.req ≡ some r
      → Step b (record b { req = r; caller = waiting; messages = suc b.messages })
  refuse : (b : Bridge) → b.caller ≡ elsewhere → begin_call b.req ≡ none → Step b b
  dispatch :
      (b : Bridge) (n : ℕ)
      → b.messages ≡ suc n
      → Step b (record b { messages = n; operations = suc b.operations })
  fulfill :
      (b : Bridge) (n : ℕ) (rc : Rc)
      → b.operations ≡ suc n
      → Step b (record b { req = fulfill_request rc b.req; operations = n })
  stopped : (b : Bridge) (rc : Rc) → Step b (record b { req = fulfill_request rc b.req })
  wake :
      (b : Bridge)
      → b.caller ≡ waiting
      → b.req.done ≡ true
      → Step b (record b { req = (end_call b.req).1; caller = elsewhere })
  time_out :
      (b : Bridge)
      → b.caller ≡ waiting
      → b.req.done ≡ false
      → Step b (record b { req = (end_call b.req).1; caller = elsewhere })
