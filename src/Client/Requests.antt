-- ===== src/Client/Requests.antt =====
-- What `send_request` of RPC_client/RPC_client.cc writes.
use cpp_rpc.Prelude.{
  ℕ, zero, suc, ◌+◌, ◌<◌, ◌≡◌, refl, sym, ap, ◌∙◌, some, List, ◌++◌, ◌>>=◌, append_assoc,
  append-nil, arith, length, length-append, replicate,
}
use cpp_rpc.Int32.{of_size}
use cpp_rpc.Cache.{Cache}
use cpp_rpc.Cache.Inv.{IsValid}
use cpp_rpc.Cache.Fifo.{contents}
use cpp_rpc.Package.{write_package}
use cpp_rpc.Package.Write.{frame, write_package_refines}
use cpp_rpc.Drain.Packages.{frames, length-frame}
use cpp_rpc.Client.{Client, Call, call, request_round, request_rounds}

-- The loop at the start of `send_request` queues the request again in every round: after `n` rounds,
-- as long as there is room, the write cache holds `n` packages of it behind what it held, whatever
-- `n` is, and the loop goes on. Beside the write cache, which keeps its size, nothing but the calls of the
-- kernel has changed.
pub request_rounds_lem :
    (n : ℕ) (buf : List ℕ) (c : Client)
    → IsValid c.write_cache
    → 0 < length buf
    → length (frames (replicate n buf)) + length (contents c.write_cache)
      < c.write_cache.buffer.capacity
    → (w : Cache) × (calls : List Call) × (request_rounds n buf c
        ≡ some (record c { write_cache = w; calls = calls }))
      × (contents w ≡ contents c.write_cache ++ frames (replicate n buf))
      × IsValid w
      × (w.buffer.capacity ≡ c.write_cache.buffer.capacity)
unfolding request_rounds request_round call frames
request_rounds_lem zero buf c v p room =
    (c.write_cache, c.calls, refl, sym (append-nil (contents c.write_cache)), v, refl)
request_rounds_lem (suc n) buf c v p room =
    let front = length-append (frame buf) (frames (replicate n buf)) in
    let (w, e, s, v1, cap) =
      write_package_refines v buf p (omega (arith, front, length-frame buf)) in
    let word : of_size (length buf) ≡ length buf =
      omega (arith, front, length-frame buf, room, v.small) in
    let written = ap (write_package c.write_cache buf) word ∙ e in
    let c1 : Client = call cpp_rpc.Client.modify_read_write (record c { write_cache = w }) in
    let total : length (contents w) ≡ length (contents c.write_cache) + (8 + length buf) =
      ap length s
      ∙ length-append (contents c.write_cache) (frame buf)
      ∙ ap (λ m. length (contents c.write_cache) + m) (length-frame buf) in
    let (w2, calls2, e2, s2, v2, cap2) =
      request_rounds_lem n buf c1 v1 p (omega (arith, front, length-frame buf, total, cap)) in
    (
      w2,
      calls2,
      rw (written, ◌>>=◌) e2,
      s2
          ∙ ap (λ xs. xs ++ frames (replicate n buf)) s
          ∙ append_assoc (contents c.write_cache) (frame buf) (frames (replicate n buf)),
      v2,
      cap2 ∙ cap,
    )
