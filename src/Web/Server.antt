-- ===== src/Web/Server.antt =====
-- src/web_status.c: the life of the web server's thread and of its sockets. What the calls of the
-- operating system return is a parameter.
pub mod Closed
use chrontabulator.Base.{
  ℕ, zero, suc, ◌+◌, ◌-◌, Bool, true, false, not, Option, none, some, List, [], ◌∷◌, ◌==◌,
  if◌then◌else◌,
}

-- The descriptors that are open, `g_wctx.listen_fd`, `g_server_running`, and the threads that run.
pub record Server : Type 0 where
  pub open_fds : List ℕ
  pub listen_fd : ℕ
  pub running : Bool
  pub threads : ℕ

-- What `socket`, `bind`, `listen` and `pthread_create` return.
pub record Answers : Type 0 where
  pub socket_fd : Option ℕ
  pub binds : Bool
  pub listens : Bool
  pub thread_starts : Bool

abbrev pub opened : ℕ → Server → Server
opened fd s = record s { open_fds = fd ∷ s.open_fds }

unfoldable pub remove : ℕ → List ℕ → List ℕ
remove fd [] = []
remove fd (x ∷ xs) = if x == fd then xs else x ∷ remove fd xs

-- `close(fd)`
abbrev pub close : ℕ → Server → Server
close fd s = record s { open_fds = remove fd s.open_fds }

-- `true` stands for 0, `false` for -1.
unfoldable pub start_on : ℕ → Answers → Server → Bool × Server
start_on fd a s =
    if not a.binds
    then (false, close fd s)
    else if not a.listens
    then (false, close fd s)
    else (let s1 = record s { listen_fd = fd } in
        if not a.thread_starts
        then (false, close fd s1)
        else (true, record s1 { running = true; threads = suc s1.threads }))

unfoldable pub web_status_start : Answers → Server → Bool × Server
web_status_start a s = elim a.socket_fd [
  | none ↦ (false, s)
  | some fd ↦ start_on fd a (opened fd s)
]

-- A round of the thread: `poll` finds nothing, `accept` fails, or there is a connection.
pub data Round : Type 0 where
  nothing refused : Round
  accepted : ℕ → Round

-- The loop of the thread over its rounds, each with what it reads of `shutting_down` first; and the
-- connections that were handled, in order.
unfoldable pub server_thread_main : List (Bool × Round) → Server → List ℕ × Server
server_thread_main [] s = ([], s)
server_thread_main ((shutting_down, nothing) ∷ rs) s =
    let rest = server_thread_main rs s in if shutting_down then ([], s) else rest
server_thread_main ((shutting_down, refused) ∷ rs) s =
    let rest = server_thread_main rs s in if shutting_down then ([], s) else rest
server_thread_main ((shutting_down, accepted fd) ∷ rs) s =
    let rest = server_thread_main rs (close fd (opened fd s)) in
    if shutting_down then ([], s) else (fd ∷ rest.0, rest.1)

-- `pthread_join` returns once the thread has ended.
unfoldable pub web_status_stop : Server → Server
web_status_stop s =
    if not s.running
    then s
    else (let s1 = close s.listen_fd (record s { threads = s.threads - 1 }) in
        record s1 { running = false })
