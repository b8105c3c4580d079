-- ===== src/Web/Server/Closed.antt =====
-- The web server (src/web_status.c) closes what it opens.
use mathlib.Core.Path.{subst⁻¹}
use chrontabulator.Base.{
  ℕ, suc, ◌≡◌, refl, ap, ◌∙◌, Bool, true, false, not, Option, none, some, List, [], ◌∷◌, if_cases,
  if◌then◌else◌, arith,
}
use chrontabulator.Web.Server.{
  Server, Answers, opened, remove, close, start_on, web_status_start, Round, nothing, refused,
  accepted, server_thread_main, web_status_stop,
}

-- The server from its start to its stop; if it does not start there is no thread.
unfoldable pub run_server : Answers → List (Bool × Round) → Server → Server
run_server a rs s =
    let (started, s1) = web_status_start a s in
    web_status_stop (if started then (server_thread_main rs s1).1 else s1)

-- The connections that are accepted before the thread sees the shutdown.
unfoldable pub accepted_before : List (Bool × Round) → List ℕ
accepted_before [] = []
accepted_before ((true, r) ∷ rs) = []
accepted_before ((false, nothing) ∷ rs) = accepted_before rs
accepted_before ((false, refused) ∷ rs) = accepted_before rs
accepted_before ((false, accepted fd) ∷ rs) = fd ∷ accepted_before rs

remove_first : (fd : ℕ) (xs : List ℕ) → remove fd (fd ∷ xs) ≡ xs
unfolding remove
remove_first fd xs = ground arith

close-opened : (fd : ℕ) (s : Server) → close fd (opened fd s) ≡ s
close-opened fd s = ap (λ (xs : List ℕ). record s { open_fds = xs }) (remove_first fd s.open_fds)

abbrev handled : ℕ → List ℕ × Server → List ℕ × Server
handled fd r = (fd ∷ r.0, r.1)

-- The thread handles each connection that it accepts, and closes it.
thread_lem :
    (rs : List (Bool × Round)) (s : Server) → server_thread_main rs s ≡ (accepted_before rs, s)
unfolding server_thread_main accepted_before
thread_lem [] s = refl
thread_lem ((true, nothing) ∷ rs) s = refl
thread_lem ((true, refused) ∷ rs) s = refl
thread_lem ((true, accepted fd) ∷ rs) s = refl
thread_lem ((false, nothing) ∷ rs) s = thread_lem rs s
thread_lem ((false, refused) ∷ rs) s = thread_lem rs s
thread_lem ((false, accepted fd) ∷ rs) s =
    ap (λ (x : Server). handled fd (server_thread_main rs x)) (close-opened fd s)
    ∙ ap (handled fd) (thread_lem rs s)

-- What is left as it was.
abbrev pub Restored : Server → Server → Type 0
Restored s s' = (s'.open_fds ≡ s.open_fds) × (s'.running ≡ false) × (s'.threads ≡ s.threads)

stop_idle :
    (s x : Server)
    → x.running ≡ false
    → x.open_fds ≡ s.open_fds
    → x.threads ≡ s.threads
    → Restored s (web_status_stop x)
unfolding web_status_stop
stop_idle s x r o t =
    if_cases (Restored s) (not x.running) {x = x} (λ e. (o, r, t)) (λ e. absurd (ground arith))

started-Restored :
    (fd : ℕ) (a : Answers) (rs : List (Bool × Round)) (s : Server)
    → s.running ≡ false
    → Restored s (
        let r = start_on fd a (opened fd s) in
        web_status_stop (if r.0 then (server_thread_main rs r.1).1 else r.1))
unfolding start_on web_status_stop
started-Restored fd a rs s h = by_answers a.binds a.listens a.thread_starts
  where
    s1 : Server
    s1 = opened fd s

    by_answers :
        (b l t : Bool)
        → Restored s (
            let r : Bool × Server =
              if not b
              then (false, close fd s1)
              else if not l
              then (false, close fd s1)
              else (let s2 = record s1 { listen_fd = fd } in
                  if not t
                  then (false, close fd s2)
                  else (true, record s2 { running = true; threads = suc s2.threads })) in
            web_status_stop (if r.0 then (server_thread_main rs r.1).1 else r.1))
    by_answers false l t = stop_idle s (close fd s1) h (remove_first fd s.open_fds) refl
    by_answers true false t = stop_idle s (close fd s1) h (remove_first fd s.open_fds) refl
    by_answers true true false =
        stop_idle s (close fd (record s1 { listen_fd = fd })) h (remove_first fd s.open_fds) refl
    by_answers true true true =
        let s3 = record s1 { listen_fd = fd; running = true; threads = suc s.threads } in
        subst⁻¹ (λ (x : Server). Restored s (web_status_stop x))
          (ap (λ (r : List ℕ × Server). r.1) (thread_lem rs s3))
          (remove_first fd s.open_fds, refl, omega arith)

-- The web server, run from its start to its stop, whatever the calls of the system return and
-- whatever connections come: the descriptors that are open are those that were before, no thread
-- is left, and the thread, over its rounds, handles exactly the connections that it accepts before it
-- sees the shutdown, in order.
pub run_server-Restored :
    (a : Answers) (rs : List (Bool × Round)) (s : Server)
    → s.running ≡ false
    → Restored s (run_server a rs s)
      × ((server_thread_main rs (web_status_start a s).1).0 ≡ accepted_before rs)
unfolding run_server web_status_start
run_server-Restored a rs s h = (
  by_socket a.socket_fd,
  ap (λ (r : List ℕ × Server). r.0) (thread_lem rs (web_status_start a s).1),
)
  where
    by_socket :
        (o : Option ℕ)
        → Restored s (
            let r : Bool × Server = elim o [
              | none ↦ (false, s)
              | some fd ↦ start_on fd a (opened fd s)
            ] in
            web_status_stop (if r.0 then (server_thread_main rs r.1).1 else r.1))
    by_socket none = stop_idle s s h refl refl
    by_socket (some fd) = started-Restored fd a rs s h
