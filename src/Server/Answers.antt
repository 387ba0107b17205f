-- ===== src/Server/Answers.antt =====
-- The rings of the server's connections when a worker answers, and when `write_socket` sends.
use cpp_rpc.Prelude.{
  ℕ, refl, inl, inr, Bool-cases, some, List, [], ◌∷◌, Holds, Holds-bind, Holds-then, arith, length,
}
use cpp_rpc.Int32.{of_size}
use cpp_rpc.Assoc.{lookup, string_key}
use cpp_rpc.Cache.Keeps.{Keeps}
use cpp_rpc.Package.{write_package}
use cpp_rpc.Package.Keeps.{write_package-Keeps}
use cpp_rpc.Send.{Answer, Sending, send, fresh_block}
use cpp_rpc.Send.Keeps.{send-Keeps}
use cpp_rpc.Monitor.{Monitor, send_bytes}
use cpp_rpc.Server.{Task, Server, object, store, worker_caller, write_socket}
use cpp_rpc.Server.Events.{run_first}
use cpp_rpc.Server.Rings.{HasRings, HasRings-same, HasRings-put, object-IsSound}

module _ {K : Type 0} where
  pub worker_caller-HasRings :
      (t : Task) (s : Server K) → HasRings s → Holds HasRings (worker_caller t s)
  unfolding worker_caller Holds
  worker_caller-HasRings t s c = Holds-then HasRings (object t.handle s) _ (λ x e.
      let old = object-IsSound t.handle s x c e in
      Holds-then HasRings (lookup t.func s.rpc_funcs) _ (λ f q.
        Holds-then HasRings (f t.bytes (length t.bytes)) _ (λ o q1.
          Holds-bind (λ r. Keeps x.write_cache r.1) HasRings
            (write_package x.write_cache o.0 (of_size o.1)) _
            (write_package-Keeps old.writes o.0 (of_size o.1) (omega arith))
            (λ r q' k.
              let kept : HasRings (store t.handle (some (record x { write_cache = r.1 })) s) =
                HasRings-put t.handle (record x { write_cache = r.1 }) c
                  (record { reads = old.reads; writes = k.valid }) in
              elim (Bool-cases r.0) [
                | inl b ↦ rw b (HasRings-same kept refl refl)
                | inr b ↦ rw b kept
              ]))))

  pub run_first-HasRings :
      (tasks : List Task) (s : Server K) → HasRings s → Holds HasRings (run_first tasks s)
  unfolding run_first Holds
  run_first-HasRings [] s c = c
  run_first-HasRings (t ∷ tasks) s c =
      worker_caller-HasRings t (record s { tasks = tasks }) (HasRings-same c refl refl)

  pub write_socket-HasRings :
      (h : ℕ) (answers : List Answer) (s : Server K)
      → HasRings s
      → Holds (λ r. HasRings r.1) (write_socket h answers s)
  unfolding write_socket Holds
  write_socket-HasRings h answers s c =
      Holds-then (λ r. HasRings r.1) (object h s) _
        (λ x e.
          let old = object-IsSound h s x c e in
          let w : Sending Monitor = record {
            tmp = fresh_block;
            sent = [];
            cache = x.write_cache;
            state = s.monitor;
          } in
          Holds-bind (λ w'. Keeps x.write_cache w'.cache) (λ r. HasRings r.1)
            (send (λ n m. send_bytes m n) answers w) _
            (send-Keeps (λ n m. send_bytes m n) answers w old.writes)
            (λ w' q k.
              HasRings-same
                (HasRings-put h (record x { write_cache = w'.cache }) c
                  (record { reads = old.reads; writes = k.valid }))
                refl refl))
