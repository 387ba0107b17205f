-- ===== src/Client/Responses.antt =====
-- What `read_socket` of RPC_client/RPC_client.cc does with the responses that come.
use cpp_rpc.Prelude.{
  ℕ, suc, ◌+◌, ◌<◌, ◌≤◌, ◌≡◌, ◌≢◌, refl, ◌∙◌, Bool, true, none, some, List, ◌++◌, ◌>>=◌, arith,
  length, get_elem?, set, splice, if◌then◌else◌, leb,
}
use cpp_rpc.Int32.{of_size}
use cpp_rpc.Assoc.{lookup, erase, nat_key, lookup-erase}
use cpp_rpc.Buffer.{Buffer}
use cpp_rpc.Cache.{Cache}
use cpp_rpc.Cache.Inv.{IsValid, held-le-capacity}
use cpp_rpc.Cache.Fifo.{contents}
use cpp_rpc.Cache.Read.{length-contents}
use cpp_rpc.Package.Layout.{Header}
use cpp_rpc.Drain.Packages.{frames, handle_all, IsUnfinished, drain_packages}
use cpp_rpc.Drain.Keeps.{drain_capacity}
use cpp_rpc.Send.{block_size, fresh_block}
use cpp_rpc.ThreadPool.{wait, notify, tag}
use cpp_rpc.Server.{received, received_length, received_bytes}
use cpp_rpc.Server.Receive.{receive_lem, received_length-positive}
use cpp_rpc.ResponseHandle.{ResponseHandle, s_waiting, s_done}
use cpp_rpc.ResponseHandle.Outcome.{IsBlock, fill_lem, shown}
use cpp_rpc.Client.{Client, Waiting, dispatch, read_socket}

module _ (malloc : ℕ → Bool) (got : (n : ℕ) → malloc n ≡ true) (response_tag : List ℕ → ℕ) where
  -- A block from the server that the read cache has room for: every package that is complete with it
  -- is dispatched, in the order of the stream, and the unfinished rest stays in the read cache, which keeps
  -- its size.
  pub read_socket-dispatch :
      (head : Header) (c : Client) (xs : List ℕ) (ps : List (List ℕ)) (rest : List ℕ) (w : Waiting)
      → IsValid c.read_cache
      → 0 < length xs
      → length xs ≤ block_size
      → length xs + length (contents c.read_cache) < c.read_cache.buffer.capacity
      → contents c.read_cache ++ xs ≡ frames ps ++ rest
      → IsUnfinished rest
      → handle_all (dispatch response_tag) ps c.waiting ≡ some w
      → (c' : Cache) × (read_socket malloc response_tag head (received xs) c
          ≡ some (record c { read_cache = c'; waiting = w }))
        × (contents c' ≡ rest)
        × IsValid c'
        × (c'.buffer.capacity ≡ c.read_cache.buffer.capacity)
  unfolding read_socket
  read_socket-dispatch head c xs ps rest w v p k room split u all =
      let (c1, e, f, v1, sized, cap) = receive_lem xs v p k room in
      let b : Buffer = record fresh_block {
        length = of_size (received_length (received xs));
        bytes = splice fresh_block.bytes 0 (received_bytes (received xs));
      } in
      let (c2, b2, d, rest2, v2, z2) =
        drain_packages malloc got (dispatch response_tag) ps rest (suc c1.buffer.capacity) head b
          c.waiting w v1 sized (f ∙ split) u
          (omega (arith, length-contents v1, held-le-capacity v1)) all in
      (
        c2,
        rw (e, ◌>>=◌, d, ◌>>=◌, received_length-positive xs p k),
        rest2,
        v2,
        drain_capacity malloc (dispatch response_tag) (suc c1.buffer.capacity) head b b2 c.waiting w
              v1 d
            ∙ cap,
      )

module _ (response_tag : List ℕ → ℕ) where
  -- A response for a waiting handle of 2048 bytes: the handle is done and shows the response, if it
  -- fits, and nothing otherwise than it did; its tag leaves the table, and a second response with the
  -- tag changes nothing.
  pub dispatch_lem :
      (p : List ℕ) (w : Waiting) (i t : ℕ) (b : Buffer)
      → lookup (response_tag p) w.response_handles ≡ some i
      → get_elem? w.handles i ≡ some (record { buffer = b; state = s_waiting; tag = t })
      → IsBlock b
      → (w' : Waiting) × (b' : Buffer) × (dispatch response_tag p w ≡ some w')
        × (w'.handles ≡ set w.handles i (record { buffer = b'; state = s_done; tag = t }))
        × (shown b' ≡ (if leb (length p) 2048 then p else shown b))
        × (lookup (response_tag p) w'.response_handles ≡ none)
        × (dispatch response_tag p w' ≡ some w')
  unfolding dispatch cpp_rpc.ResponseHandle.write notify
  dispatch_lem p w i t b e g z =
      let (b', f, z', s) = fill_lem b p z in
      let w' : Waiting = record {
        response_handles = erase (response_tag p) w.response_handles;
        handles = set w.handles i (record { buffer = b'; state = s_done; tag = t });
        ready = tag t;
      } in
      let gone : lookup (response_tag p) w'.response_handles ≡ none =
        ground (arith, lookup-erase (response_tag p) (response_tag p) w.response_handles) in
      (w', b', rw (dispatch, e) (rw (g, ◌>>=◌) (rw (f, ◌>>=◌))), refl, s, gone, rw (dispatch, gone))

  -- The notification of a response hides that of another: once a response for a waiting handle of
  -- another tag has been dispatched, a thread that waits for `t` stays blocked, even if the response
  -- to `t` came just before and nobody has seen its notification.
  pub dispatch_hides :
      (p : List ℕ) (w : Waiting) (i t t' : ℕ) (b : Buffer)
      → lookup (response_tag p) w.response_handles ≡ some i
      → get_elem? w.handles i ≡ some (record { buffer = b; state = s_waiting; tag = t' })
      → IsBlock b
      → t' ≢ t
      → (w' : Waiting) × (dispatch response_tag p w ≡ some w') × (wait t w'.ready ≡ none)
  unfolding dispatch cpp_rpc.ResponseHandle.write wait notify
  dispatch_hides p w i t t' b e g z ne =
      let (b', f, z', s) = fill_lem b p z in
      let h' : ResponseHandle = record { buffer = b'; state = s_done; tag = t' } in
      (
        record {
          response_handles = erase (response_tag p) w.response_handles;
          handles = set w.handles i h';
          ready = tag t';
        },
        rw (dispatch, e) (rw (g, ◌>>=◌) (rw (f, ◌>>=◌))),
        ground (arith, ne),
      )
