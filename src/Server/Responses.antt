-- ===== src/Server/Responses.antt =====
-- What `worker_caller` of RPC_server/RequestHandle.cc makes of a task.
use cpp_rpc.Prelude.{
  get_elem?-set, ℕ, ◌+◌, ◌≤◌, ◌<◌, ◌≡◌, refl, none, some, List, ◌++◌, ◌>>=◌, length, slice, arith,
}
use cpp_rpc.Int32.{of_size}
use cpp_rpc.Assoc.{lookup, string_key}
use cpp_rpc.Cache.{Cache}
use cpp_rpc.Cache.Inv.{IsValid}
use cpp_rpc.Cache.Fifo.{contents}
use cpp_rpc.Package.Write.{frame}
use cpp_rpc.Package.Prefix.{write_package-prefix}
use cpp_rpc.Monitor.{send_responses}
use cpp_rpc.Server.{RpcFunc, RequestHandle, Task, Server, object, store, worker_caller}
use cpp_rpc.Server.Counts.{object-heap}

module _ {K : Type 0} where
  -- A task whose connection is open and whose function is registered: the function is called with the
  -- request, its response of `n` bytes goes to the end of that connection's write cache as one
  -- package, if there is room for more than it needs, and one response is counted.
  pub worker_caller_lem :
      (t : Task) (s : Server K) (x : RequestHandle) (f : RpcFunc) (bytes : List ℕ) (n : ℕ)
      → object t.handle s ≡ some x
      → lookup t.func s.rpc_funcs ≡ some f
      → f t.bytes (length t.bytes) ≡ some (bytes, n)
      → IsValid x.write_cache
      → 0 < n
      → n ≤ length bytes
      → 8 + n + length (contents x.write_cache) < x.write_cache.buffer.capacity
      → (s' : Server K) × (c : Cache) × (worker_caller t s ≡ some s')
        × (object t.handle s' ≡ some (record x { write_cache = c }))
        × (contents c ≡ contents x.write_cache ++ frame (slice bytes 0 n))
        × IsValid c
        × (s'.monitor ≡ send_responses s.monitor 1)
        × (s'.tasks ≡ s.tasks)
        × (s'.rpc_funcs ≡ s.rpc_funcs)
        × (c.buffer.capacity ≡ x.write_cache.buffer.capacity)
  unfolding worker_caller object store
  worker_caller_lem t s x f bytes n e l q v p k room =
      let (c, w, g, v', cap) = write_package-prefix v bytes n p k room in
      let word : of_size n ≡ n = omega (arith, room, v.small) in
      let y : RequestHandle = record x { write_cache = c } in
      let s1 : Server K = store t.handle (some y) s in
      (
        record s1 { monitor = send_responses s1.monitor 1 },
        c,
        rw (e, ◌>>=◌, l, ◌>>=◌, q, ◌>>=◌, word, w, ◌>>=◌),
        rw (get_elem?-set s.heap t.handle (some x) (some y) (object-heap t.handle s x e), ◌>>=◌),
        g,
        v',
        refl,
        refl,
        refl,
        cap,
      )

  -- A function that writes outside its array.
  pub worker_caller_fault :
      (t : Task) (s : Server K) (x : RequestHandle) (f : RpcFunc)
      → object t.handle s ≡ some x
      → lookup t.func s.rpc_funcs ≡ some f
      → f t.bytes (length t.bytes) ≡ none
      → worker_caller t s ≡ none
  unfolding worker_caller
  worker_caller_fault t s x f e l q = rw (e, ◌>>=◌, l, ◌>>=◌, q, ◌>>=◌) refl
