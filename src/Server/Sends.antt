-- ===== src/Server/Sends.antt =====
-- What `write_socket` of RPC_server/RequestHandle.cc sends of a connection's write cache.
use cpp_rpc.Prelude.{
  get_elem?-set, ℕ, ◌*◌, ◌<◌, ◌≤◌, ◌∷◌, arith, ◌≡◌, refl, some, List, [], ◌++◌, ◌>>=◌, length,
}
use cpp_rpc.Cache.{Cache}
use cpp_rpc.Cache.Inv.{IsValid}
use cpp_rpc.Cache.Fifo.{contents}
use cpp_rpc.Cache.Keeps.{Keeps}
use cpp_rpc.Send.Whole.{send_whole}
use cpp_rpc.Send.{Answer, accepts, Sending, block_size, fresh_block}
use cpp_rpc.Send.Stream.{AllAccept, send_stream}
use cpp_rpc.Monitor.{Monitor, send_bytes}
use cpp_rpc.Server.{RequestHandle, Server, object, store, write_socket}
use cpp_rpc.Server.Counts.{object-heap}

module _ {K : Type 0} where
  -- what `write_socket` sends of a connection's write cache
  pub write_socket_stream :
      (h : ℕ) (answers : List Answer) (s : Server K) (x : RequestHandle)
      → object h s ≡ some x
      → IsValid x.write_cache
      → AllAccept answers
      → length (contents x.write_cache) < block_size * length answers
      → (sent : List ℕ) × (s' : Server K) × (c : Cache) × (write_socket h answers s
          ≡ some (sent, s'))
        × (object h s' ≡ some (record x { write_cache = c }))
        × (contents x.write_cache ≡ sent ++ contents c)
        × IsValid c
  unfolding write_socket object store
  write_socket_stream h answers s x e v a enough =
      let w : Sending Monitor = record {
        tmp = fresh_block;
        sent = [];
        cache = x.write_cache;
        state = s.monitor;
      } in
      let (xs, w', sends, out, cut, v') =
        send_stream (λ n m. send_bytes m n) answers w (record { valid = v; block = refl }) a
          enough in
      let y : RequestHandle = record x { write_cache = w'.cache } in
      let s1 : Server K = store h (some y) s in
      (
        xs,
        record s1 { monitor = w'.state },
        w'.cache,
        rw (e, ◌>>=◌, sends, ◌>>=◌, out),
        rw (get_elem?-set s.heap h (some x) (some y) (object-heap h s x e), ◌>>=◌),
        cut,
        v',
      )

  -- If that is less than a block, and the socket takes it all, then all of it is sent.
  pub write_socket_whole :
      (h k : ℕ) (more : List Answer) (s : Server K) (x : RequestHandle)
      → object h s ≡ some x
      → IsValid x.write_cache
      → length (contents x.write_cache) < block_size
      → block_size ≤ k
      → (s' : Server K) × (c : Cache) × (write_socket h (accepts k ∷ more) s
          ≡ some (contents x.write_cache, s'))
        × (object h s' ≡ some (record x { write_cache = c }))
        × (contents c ≡ [])
        × Keeps x.write_cache c
        × (s'.tasks ≡ s.tasks)
        × (s'.rpc_funcs ≡ s.rpc_funcs)
  unfolding write_socket object store
  write_socket_whole h k more s x e v small k_fits =
      let w : Sending Monitor = record {
        tmp = fresh_block;
        sent = [];
        cache = x.write_cache;
        state = s.monitor;
      } in
      let (w', sends, out, rest, kept) =
        send_whole (λ n m. send_bytes m n) k more w (record { valid = v; block = refl })
          (omega (arith, small, k_fits)) small in
      let y : RequestHandle = record x { write_cache = w'.cache } in
      let s1 : Server K = store h (some y) s in
      (
        record s1 { monitor = w'.state },
        w'.cache,
        rw (e, ◌>>=◌, sends, ◌>>=◌, out),
        rw (get_elem?-set s.heap h (some x) (some y) (object-heap h s x e), ◌>>=◌),
        rest,
        kept,
        refl,
        refl,
      )
