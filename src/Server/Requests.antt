-- ===== src/Server/Requests.antt =====
-- What `read_socket` of RPC_server/RequestHandle.cc makes of the bytes that a client sends.
use cpp_rpc.Prelude.{
  get_elem?-set, ℕ, suc, ◌+◌, ◌<◌, ◌≤◌, ◌≡◌, refl, sym, ap, ◌∙◌, inl, inr, Bool, true, Option,
  Option-cases, none, some, List, [], ◌∷◌, ◌++◌, ◌>>=◌, append_assoc, append-nil, arith, length,
  get_elem?, splice,
}
use cpp_rpc.Int32.{of_size}
use cpp_rpc.Assoc.{lookup, string_key}
use cpp_rpc.Buffer.{Buffer}
use cpp_rpc.Cache.{Cache}
use cpp_rpc.Cache.Inv.{IsValid, held-le-capacity}
use cpp_rpc.Cache.Fifo.{contents}
use cpp_rpc.Cache.Read.{length-contents}
use cpp_rpc.Package.Layout.{Header}
use cpp_rpc.Drain.Packages.{frames, handle_all, IsUnfinished, drain_packages}
use cpp_rpc.Drain.Keeps.{drain_capacity}
use cpp_rpc.Send.{block_size, fresh_block}
use cpp_rpc.IoService.{Flag, Op}
use cpp_rpc.Monitor.{recv_bytes, recv_requests}
use cpp_rpc.ThreadPool.{append_task}
use cpp_rpc.Server.{
  RpcFunc, RequestHandle, Task, Server, received, received_length, received_bytes, object, store,
  enqueue, handle_request, read_socket,
}
use cpp_rpc.Server.Receive.{receive_lem, received_length-positive}
use cpp_rpc.Server.Counts.{object-heap}
use Prim.Native.String.{String}

-- the tasks that payloads ask for, in order: those whose function is registered
unfoldable pub wanted : Option RpcFunc → Task → List Task
wanted none t = []
wanted (some f) t = t ∷ []

module _ (parse : List ℕ → String) (h : ℕ) where
  unfoldable pub requests : List (String × RpcFunc) → List (List ℕ) → List Task
  requests funcs [] = []
  requests funcs (p ∷ ps) =
      wanted (lookup (parse p) funcs) (record { handle = h; func = parse p; bytes = p })
      ++ requests funcs ps

  -- what the requests leave, beside the monitor
  record Handled {K : Type 0} (s s' : Server K) (ts : List Task) : Type 0 where
    tasks : s'.tasks ≡ s.tasks ++ ts
    funcs : s'.rpc_funcs ≡ s.rpc_funcs
    heap : s'.heap ≡ s.heap

  module _ {K : Type 0} where
    handle_request_lem :
        (p : List ℕ) (s : Server K)
        → (s' : Server K) × (handle_request parse h p s ≡ some s')
          × Handled s s' (
              wanted
                (lookup (parse p) s.rpc_funcs)
                (record { handle = h; func = parse p; bytes = p }))
    unfolding handle_request enqueue append_task wanted
    handle_request_lem p s =
        let s1 : Server K = record s { monitor = recv_requests s.monitor 1 } in
        let t : Task = record { handle = h; func = parse p; bytes = p } in
        elim (Option-cases (lookup (parse p) s.rpc_funcs)) [
          | inl e ↦ (
            s1,
            rw (handle_request, e),
            rw e (record { tasks = sym (append-nil s.tasks); funcs = refl; heap = refl }),
          )
          | inr (f, e) ↦ (
            enqueue t s1,
            rw (handle_request, e),
            rw e (record { tasks = refl; funcs = refl; heap = refl }),
          )
        ]

    handle_all_lem :
        (ps : List (List ℕ)) (s : Server K)
        → (s' : Server K) × (handle_all (handle_request parse h) ps s ≡ some s')
          × Handled s s' (requests s.rpc_funcs ps)
    unfolding handle_all requests
    handle_all_lem [] s =
        (s, refl, record { tasks = sym (append-nil s.tasks); funcs = refl; heap = refl })
    handle_all_lem (p ∷ ps) s =
        let (s1, e, a) = handle_request_lem p s in
        let (s2, e2, b) = handle_all_lem ps s1 in
        (
          s2,
          rw (e, ◌>>=◌) e2,
          record {
            tasks =
                rw (← append_assoc, ← a.tasks)
                  (b.tasks ∙ ap (λ fs. s1.tasks ++ requests fs ps) a.funcs);
            funcs = b.funcs ∙ a.funcs;
            heap = b.heap ∙ a.heap;
          },
        )

module _ {K : Type 0} (epoll_ctl : Op → ℕ → List Flag → K → Bool × K) (close : ℕ → K → K)
    (malloc : ℕ → Bool) (got : (n : ℕ) → malloc n ≡ true) (parse : List ℕ → String) where
  -- A block that a client sends and that the read cache has room for: `read_socket` appends to the
  -- pool's tasks one for each package that is complete with it, in the order of the stream and for
  -- the registered functions only, keeps the unfinished rest of the stream in the read cache, and
  -- leaves the functions and the cache's size as they are.
  pub read_socket-requests :
      (h : ℕ) (head : Header) (s : Server K) (x : RequestHandle) (xs : List ℕ) (ps : List (List ℕ))
      (rest : List ℕ)
      → object h s ≡ some x
      → IsValid x.read_cache
      → 0 < length xs
      → length xs ≤ block_size
      → length xs + length (contents x.read_cache) < x.read_cache.buffer.capacity
      → contents x.read_cache ++ xs ≡ frames ps ++ rest
      → IsUnfinished rest
      → (s' : Server K) × (c : Cache) × (read_socket epoll_ctl close malloc parse h head
            (received xs)
            s
          ≡ some s')
        × (s'.tasks ≡ s.tasks ++ requests parse h s.rpc_funcs ps)
        × (object h s' ≡ some (record x { read_cache = c }))
        × (contents c ≡ rest)
        × IsValid c
        × (s'.rpc_funcs ≡ s.rpc_funcs)
        × (c.buffer.capacity ≡ x.read_cache.buffer.capacity)
  unfolding read_socket object store
  read_socket-requests h head s x xs ps rest e v p k room split u =
      let (c1, w, f, v1, sized, cap) = receive_lem xs v p k room in
      let len = received_length (received xs) in
      let s1 : Server K = record s { monitor = recv_bytes s.monitor (of_size len) } in
      let b : Buffer = record fresh_block {
        length = of_size len;
        bytes = splice fresh_block.bytes 0 (received_bytes (received xs));
      } in
      let (s2, all, done) = handle_all_lem parse h ps s1 in
      let (c2, b2, d, rest2, v2, z2) =
        drain_packages malloc got (handle_request parse h) ps rest (suc c1.buffer.capacity) head b
          s1 s2 v1 sized (f ∙ split) u (omega (arith, length-contents v1, held-le-capacity v1))
          all in
      let x' : RequestHandle = record x { read_cache = c2 } in
      let there = ap (λ hs. get_elem? hs h) done.heap ∙ object-heap h s x e in
      (
        store h (some x') s2,
        c2,
        rw (e, ◌>>=◌, w, ◌>>=◌, d, ◌>>=◌, received_length-positive xs p k),
        done.tasks,
        rw (get_elem?-set s2.heap h (some x) (some x') there, ◌>>=◌),
        rest2,
        v2,
        done.funcs,
        drain_capacity malloc (handle_request parse h) (suc c1.buffer.capacity) head b b2 s1 s2 v1 d
            ∙ cap,
      )
