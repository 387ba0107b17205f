-- ===== src/Server/Events.antt =====
-- Histories of the server of RPC_server/, and the number of its clients along them.
-- One event is one run of a handler: a connection is accepted, a connection's socket is read or
-- written, or a worker runs the oldest task of the pool.
use cpp_rpc.Prelude.{
  get_elem?-set, ℕ, suc, ◌≡◌, refl, ap, ◌∙◌, inl, inr, Bool, true, Bool-cases, Option, some, List,
  [], ◌∷◌, ◌>>=◌, ◌==◌, if◌then◌else◌, Holds, Holds-bind, Holds-then, get_elem?, splice, arith,
  length,
}
use cpp_rpc.Int32.{lt_int, of_size}
use cpp_rpc.Assoc.{lookup, string_key}
use cpp_rpc.Buffer.{Buffer}
use cpp_rpc.Cache.{Cache, write}
use cpp_rpc.Package.{write_package}
use cpp_rpc.Package.Layout.{Header}
use cpp_rpc.Drain.{drain}
use cpp_rpc.Drain.Keeps.{drain_keeps}
use cpp_rpc.Send.{Answer, Sending, send, fresh_block}
use cpp_rpc.Send.Keeps.{send_keeps}
use cpp_rpc.IoService.{Flag, Op}
use cpp_rpc.Monitor.{Monitor, recv_bytes, send_bytes, send_responses}
use cpp_rpc.Server.{
  RequestHandle, Task, Server, Received, received_length, received_bytes, object, store,
  handle_request, worker_caller, write_socket, new_connection, read_socket,
}
use cpp_rpc.Server.Counts.{
  IsCounted, is_open, Untouched, handle_request-Untouched, IsCounted-put, object-heap,
  IsCounted-same,
}
use cpp_rpc.Server.Connections.{close_connection-IsCounted, new_connection-IsCounted}
use Prim.Native.String.{String}

pub data Event : Type 0 where
  connects : ℕ → Event
  reads : ℕ → Header → Received → Event
  writes : ℕ → List Answer → Event
  works : Event

module _ {K : Type 0} where
  -- a worker takes the oldest task, if there is one, and runs it
  unfoldable pub run_first : List Task → Server K → Option (Server K)
  run_first [] s = some s
  run_first (t ∷ tasks) s = worker_caller t (record s { tasks = tasks })

  abbrev pub run_task : Server K → Option (Server K)
  run_task s = run_first s.tasks s

  pub run_task-oldest :
      (s : Server K) (t : Task) (ts : List Task)
      → s.tasks ≡ t ∷ ts
      → run_task s ≡ worker_caller t (record s { tasks = ts })
  unfolding run_first
  run_task-oldest s t ts e = ap (λ us. run_first us s) e

  -- no object is a task's
  pub object-tasks :
      (h : ℕ) (s : Server K) (ts : List Task) → object h (record s { tasks = ts }) ≡ object h s
  unfolding object
  object-tasks h s ts = refl

  Untouched-self : (s : Server K) → Untouched s s
  Untouched-self s = record { heap = refl; clients = refl; connections = refl; bound = refl }

  worker_caller-IsCounted :
      (t : Task) (s : Server K) → IsCounted s → Holds IsCounted (worker_caller t s)
  unfolding worker_caller send_responses Holds
  worker_caller-IsCounted t s c = Holds-then IsCounted (object t.handle s) _ (λ x e.
      let kept : (d : Cache) → IsCounted (store t.handle (some (record x { write_cache = d })) s) =
        λ d.
          IsCounted-put t.handle x (record x { write_cache = d }) c (Untouched-self s)
            (object-heap t.handle s x e) refl in
      Holds-then IsCounted (lookup t.func s.rpc_funcs) _ (λ f q.
        Holds-then IsCounted (f t.bytes (length t.bytes)) _ (λ o q1.
          Holds-then IsCounted (write_package x.write_cache o.0 (of_size o.1)) _ (λ r q'.
            elim (Bool-cases r.0) [
              | inl b ↦ rw b (IsCounted-same (kept r.1) refl refl refl refl)
              | inr b ↦ rw b (kept r.1)
            ]))))

  write_socket-IsCounted :
      (h : ℕ) (answers : List Answer) (s : Server K)
      → IsCounted s
      → Holds (λ r. IsCounted r.1) (write_socket h answers s)
  unfolding write_socket send_bytes Holds store
  write_socket-IsCounted h answers s c =
      Holds-then (λ r. IsCounted r.1) (object h s) _
        (λ x e.
          let same : Monitor → Type 0 = λ m. m.connections ≡ s.monitor.connections in
          let w : Sending Monitor = record {
            tmp = fresh_block;
            sent = [];
            cache = x.write_cache;
            state = s.monitor;
          } in
          Holds-bind (λ w'. same w'.state) (λ r. IsCounted r.1)
            (send (λ n m. send_bytes m n) answers w) _
            (send_keeps (λ n m. send_bytes m n) same (λ n m p. p) answers w refl)
            (λ w' q p.
              IsCounted-same
                (IsCounted-put h x (record x { write_cache = w'.cache }) c (Untouched-self s)
                  (object-heap h s x e) refl)
                refl p refl refl))

  run_first-IsCounted :
      (tasks : List Task) (s : Server K) → IsCounted s → Holds IsCounted (run_first tasks s)
  unfolding run_first Holds
  run_first-IsCounted [] s c = c
  run_first-IsCounted (t ∷ tasks) s c =
      worker_caller-IsCounted t (record s { tasks = tasks }) (IsCounted-same c refl refl refl refl)

  module _ (epoll_ctl : Op → ℕ → List Flag → K → Bool × K) (close : ℕ → K → K) (malloc : ℕ → Bool)
      (parse : List ℕ → String) where
    read_socket-IsCounted :
        (h : ℕ) (head : Header) (r : Received) (s : Server K)
        → IsCounted s
        → ((x : RequestHandle) → object h s ≡ some x → lt_int 0 x.fd ≡ true)
        → Holds IsCounted (read_socket epoll_ctl close malloc parse h head r s)
    unfolding read_socket Holds recv_bytes store
    read_socket-IsCounted h head r s c o =
        let len = received_length r in
        let s1 = record s { monitor = recv_bytes s.monitor (of_size len) } in
        let buffer : Buffer = record fresh_block {
          length = of_size len;
          bytes = splice fresh_block.bytes 0 (received_bytes r);
        } in
        let start : Untouched s s1 = record {
          heap = refl;
          clients = refl;
          connections = refl;
          bound = refl;
        } in
        Holds-then IsCounted (object h s) _ (λ x e.
          Holds-then IsCounted (write x.read_cache buffer) _ (λ w q.
            Holds-bind (λ d. Untouched s d.2) IsCounted
              (drain malloc (handle_request parse h) (suc w.1.buffer.capacity) w.1 head buffer s1) _
              (drain_keeps malloc (handle_request parse h) (Untouched s)
                (λ bytes s' u. handle_request-Untouched parse h bytes s s' u)
                (suc w.1.buffer.capacity) w.1 head buffer s1 start)
              (λ d q' u.
                let x' = record x { read_cache = d.0 } in
                let there = object-heap h s x e in
                let kept = IsCounted-put h x x' c u there refl in
                elim (Bool-cases (len == 0)) [
                  | inl z ↦ rw z (
                      close_connection-IsCounted epoll_ctl close h x' (store h (some x') d.2) kept
                        (get_elem?-set d.2.heap h (some x) (some x')
                          (ap (λ xs. get_elem? xs h) u.heap ∙ there))
                        (o x e))
                  | inr z ↦ rw z kept
                ])))

    -- The kernel reports no event for a descriptor that is closed, so an event for one does nothing.
    pub readable : ℕ → Server K → Bool
    readable h s = is_open (object h s) == 1

    unfoldable pub step : Event → Server K → Option (Server K)
    step (connects fd) s = new_connection epoll_ctl close malloc fd s
    step (reads h head r) s =
        if readable h s then read_socket epoll_ctl close malloc parse h head r s else some s
    step (writes h answers) s =
        if readable h s then (write_socket h answers s >>= λ r. some r.1) else some s
    step works s = run_task s

    unfoldable pub run : List Event → Server K → Option (Server K)
    run [] s = some s
    run (e ∷ events) s = step e s >>= run events

    readable-open :
        (h : ℕ) (s : Server K) (x : RequestHandle)
        → readable h s ≡ true
        → object h s ≡ some x
        → lt_int 0 x.fd ≡ true
    unfolding readable is_open
    readable-open h s x p e = ground (arith, ap is_open e)

    step-IsCounted : (e : Event) (s : Server K) → IsCounted s → Holds IsCounted (step e s)
    unfolding step Holds
    step-IsCounted (connects fd) s c = new_connection-IsCounted epoll_ctl close malloc fd s c
    step-IsCounted (reads h head r) s c = elim (Bool-cases (readable h s)) [
      | inl p ↦ rw p (read_socket-IsCounted h head r s c (λ x e. readable-open h s x p e))
      | inr p ↦ rw p c
    ]
    step-IsCounted (writes h answers) s c = elim (Bool-cases (readable h s)) [
      | inl p ↦ rw p (
          Holds-bind (λ r. IsCounted r.1) IsCounted (write_socket h answers s) _
            (write_socket-IsCounted h answers s c) (λ r q c'. c'))
      | inr p ↦ rw p c
    ]
    step-IsCounted works s c = run_first-IsCounted s.tasks s c

    -- If the server's number of clients and the monitor's number of connections are both the number of
    -- open connections, that is at most `max_client_count`, and the bound is below 2 ^ 31 - 1, then
    -- all this holds again after every history of events that does not end in a fault, whatever the
    -- kernel answers.
    pub run-IsCounted :
        (events : List Event) (s : Server K) → IsCounted s → Holds IsCounted (run events s)
    unfolding run Holds
    run-IsCounted [] s c = c
    run-IsCounted (e ∷ events) s c =
        Holds-bind IsCounted IsCounted (step e s) (run events) (step-IsCounted e s c)
          (λ s' q c'. run-IsCounted events s' c')
