-- ===== src/Server/Counts.antt =====
-- The number of clients of RPC_server/RPC_server.cc against the connections that are open.
use cpp_rpc.Prelude.{
  ℕ, zero, suc, ◌+◌, ◌-◌, ◌≤◌, ◌<◌, ◌≡◌, ◌^◌, refl, sym, ap, ◌∙◌, inl, inr, Option, Option-cases,
  none, some, List, [], ◌∷◌, ◌++◌, >>=-eq-some, if◌then◌else◌, arith, Holds, get_elem?, set,
}
use cpp_rpc.Int32.{lt_int}
use cpp_rpc.Assoc.{lookup, string_key}
use cpp_rpc.Monitor.{remove_connections, recv_requests, set_task_queue_size, set_running_workers}
use cpp_rpc.Server.{RequestHandle, Server, object, store, enqueue, handle_request, drop_client}
use Prim.Native.String.{String}

-- 1 for a connection that is open
unfoldable pub is_open : Option RequestHandle → ℕ
is_open none = 0
is_open (some x) = if lt_int 0 x.fd then 1 else 0

unfoldable pub open_count : List (Option RequestHandle) → ℕ
open_count [] = 0
open_count (x ∷ xs) = is_open x + open_count xs

pub open_count-set :
    (xs : List (Option RequestHandle)) (i : ℕ) (x y : Option RequestHandle)
    → get_elem? xs i ≡ some x
    → open_count (set xs i y) + is_open x ≡ open_count xs + is_open y
unfolding open_count
open_count-set [] i x y e = cc
open_count-set (z ∷ xs) zero x y e = ground arith
open_count-set (z ∷ xs) (suc i) x y e = omega (arith, open_count-set xs i x y e)

pub open_count-append :
    (xs ys : List (Option RequestHandle)) → open_count (xs ++ ys) ≡ open_count xs + open_count ys
unfolding open_count
open_count-append [] ys = omega arith
open_count-append (x ∷ xs) ys = omega (arith, open_count-append xs ys)

-- Both counters are the number of open connections, and that is at most the bound.
pub record IsCounted {K : Type 0} (s : Server K) : Type 0 where
  pub clients : s.clients ≡ open_count s.heap
  pub monitored : s.monitor.connections ≡ open_count s.heap
  pub bounded : open_count s.heap ≤ s.max_client_count
  pub small : s.max_client_count < 2 ^ 31 - 1

module _ {K : Type 0} where
  pub object-heap :
      (h : ℕ) (s : Server K) (x : RequestHandle)
      → object h s ≡ some x
      → get_elem? s.heap h ≡ some (some x)
  unfolding object
  object-heap h s x e = let (y, p, q) = >>=-eq-some (get_elem? s.heap h) (λ y. y) e in p ∙ ap some q

  -- a state that agrees on what is counted
  pub IsCounted-same :
      {s s' : Server K}
      → IsCounted s
      → s'.clients ≡ s.clients
      → s'.monitor.connections ≡ s.monitor.connections
      → open_count s'.heap ≡ open_count s.heap
      → s'.max_client_count ≡ s.max_client_count
      → IsCounted s'
  IsCounted-same c p q r t = record {
    clients = p ∙ c.clients ∙ sym r;
    monitored = q ∙ c.monitored ∙ sym r;
    bounded = rw (r, t) c.bounded;
    small = rw t c.small;
  }

  pub IsCounted-store :
      {s : Server K} (h : ℕ) (x y : RequestHandle)
      → IsCounted s
      → get_elem? s.heap h ≡ some (some x)
      → y.fd ≡ x.fd
      → IsCounted (store h (some y) s)
  unfolding store is_open
  IsCounted-store {s} h x y c e q =
      IsCounted-same c refl refl
        (omega (arith, open_count-set s.heap h (some x) (some y) e, is_open-fd)) refl
    where
      is_open-fd : is_open (some y) ≡ is_open (some x)
      is_open-fd = rw q

  -- what a request changes is not counted
  pub record Untouched (s s' : Server K) : Type 0 where
    pub heap : s'.heap ≡ s.heap
    pub clients : s'.clients ≡ s.clients
    pub connections : s'.monitor.connections ≡ s.monitor.connections
    pub bound : s'.max_client_count ≡ s.max_client_count

  pub handle_request-Untouched :
      (parse : List ℕ → String) (h : ℕ) (bytes : List ℕ) (s s' : Server K)
      → Untouched s s'
      → Holds (Untouched s) (handle_request parse h bytes s')
  unfolding handle_request enqueue Holds recv_requests set_task_queue_size set_running_workers
  handle_request-Untouched parse h bytes s s' u =
      elim (Option-cases (lookup (parse bytes) s'.rpc_funcs)) [
        | inl e ↦
            rw (handle_request, e, Holds)
              (record {
                heap = u.heap;
                clients = u.clients;
                connections = u.connections;
                bound = u.bound;
              })
        | inr (f, e) ↦
            rw (handle_request, e, Holds)
              (record {
                heap = u.heap;
                clients = u.clients;
                connections = u.connections;
                bound = u.bound;
              })
      ]

  -- an operation on the object `h` that leaves its descriptor
  pub IsCounted-put :
      {s s' : Server K} (h : ℕ) (x y : RequestHandle)
      → IsCounted s
      → Untouched s s'
      → get_elem? s.heap h ≡ some (some x)
      → y.fd ≡ x.fd
      → IsCounted (store h (some y) s')
  IsCounted-put h x y c u e q =
      IsCounted-store h x y
        (IsCounted-same c u.clients u.connections (ap open_count u.heap) u.bound)
        (ap (λ xs. get_elem? xs h) u.heap ∙ e) q

  pub drop_client-open :
      (s : Server K) (h : ℕ) (x y : Option RequestHandle)
      → IsCounted s
      → get_elem? s.heap h ≡ some x
      → is_open x ≡ 1
      → is_open y ≡ 0
      → IsCounted (store h y (drop_client s))
  unfolding store drop_client remove_connections
  drop_client-open s h x y c e p q =
      let eq = open_count-set s.heap h x y e in
      record {
        clients = omega (arith, c.clients, c.bounded, c.small);
        monitored = omega (arith, c.monitored, c.bounded, c.small);
        bounded = omega (arith, c.bounded);
        small = c.small;
      }
