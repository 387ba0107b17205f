-- ===== src/Stubs/Serve.antt =====
-- The server's end of a call.
use cpp_rpc.Prelude.{
  ℕ, ◌+◌, ◌<◌, ◌≤◌, ◌≡◌, refl, ap, ◌∙◌, Option, none, some, List, ◌++◌, length, take, take_all,
  slice, splice, length-splice, slice-splice_at, le→leb, lt→leb, arith,
}
use cpp_rpc.Assoc.{lookup, string_key}
use text.Mathlib.TextEquality.{eq_iff}
use cpp_rpc.Cache.{Cache}
use cpp_rpc.Cache.Inv.{IsValid}
use cpp_rpc.Cache.Fifo.{contents}
use cpp_rpc.Package.Write.{frame}
use cpp_rpc.Server.{RequestHandle, Task, Server, object, worker_caller}
use cpp_rpc.Server.Responses.{worker_caller_lem}
use cpp_rpc.Stubs.{Request, Response, Codec, respond, serve}
use Prim.Native.String.{String}

module _ {A R : Type 0} (request_class : Codec (Request A)) (response_class : Codec (Response R))
    (func : String) (f : A → R) where
  -- the bytes of a request, and of its response
  abbrev pub asked : ℕ → A → List ℕ
  asked query_id args =
      request_class.serialize (record { method = func; query_id = query_id; args = args })

  abbrev pub answered : ℕ → A → List ℕ
  answered query_id args =
      response_class.serialize (record { method = func; query_id = query_id; result = f args })

  abbrev stub : List ℕ → ℕ → Option (List ℕ × ℕ)
  stub = serve response_class request_class func f

  serve-respond :
      (query_id : ℕ) (args : A)
      → stub (asked query_id args) (length (asked query_id args))
        ≡ respond response_class func query_id (f args) (asked query_id args)
  unfolding serve
  serve-respond query_id args =
      let buf = asked query_id args in
      let request : Request A = record { method = func; query_id = query_id; args = args } in
      let read : request_class.merge (take (length buf) buf) ≡ request =
        ap request_class.merge (take_all (length buf) buf (omega arith))
        ∙ request_class.merge-serialize request in
      rw (read, (eq_iff func func).1 refl, serve) refl

  pub serve_lem :
      (query_id : ℕ) (args : A)
      → length (answered query_id args) ≤ length (asked query_id args)
      → (out : List ℕ) × (stub (asked query_id args) (length (asked query_id args))
          ≡ some (out, length (answered query_id args)))
        × (slice out 0 (length (answered query_id args)) ≡ answered query_id args)
        × (length out ≡ length (asked query_id args))
  unfolding respond
  serve_lem query_id args fits =
      let buf = asked query_id args in
      let out = answered query_id args in
      (
        splice buf 0 out,
        serve-respond query_id args ∙ rw (le→leb (length out) (length buf) fits, respond) refl,
        slice-splice_at buf 0 out (length out) (omega arith) refl,
        length-splice buf 0 out (omega (arith, fits)),
      )

  -- A response that is longer than its request is written past the end of the request's array.
  pub serve_overflows :
      (query_id : ℕ) (args : A)
      → length (asked query_id args) < length (answered query_id args)
      → stub (asked query_id args) (length (asked query_id args)) ≡ none
  unfolding respond
  serve_overflows query_id args longer =
      serve-respond query_id args
      ∙ rw (lt→leb (length (answered query_id args)) (length (asked query_id args)) longer, respond)
          refl

  -- A task with a call of the function, and the function's stub registered: the worker puts the response
  -- with the function's value and the request's number as one package at the end of the connection's
  -- write cache, if it is no longer than the request and there is room for it.
  pub worker_caller-serve :
      {K : Type 0} (s : Server K) (x : RequestHandle) (h query_id : ℕ) (args : A)
      → object h s ≡ some x
      → lookup func s.rpc_funcs ≡ some (serve response_class request_class func f)
      → IsValid x.write_cache
      → 0 < length (answered query_id args)
      → length (answered query_id args) ≤ length (asked query_id args)
      → 8 + length (answered query_id args) + length (contents x.write_cache)
        < x.write_cache.buffer.capacity
      → (s' : Server K) × (c : Cache) × (worker_caller
            (record { handle = h; func = func; bytes = asked query_id args })
            s
          ≡ some s')
        × (object h s' ≡ some (record x { write_cache = c }))
        × (contents c ≡ contents x.write_cache ++ frame (answered query_id args))
        × IsValid c
        × (s'.tasks ≡ s.tasks)
        × (s'.rpc_funcs ≡ s.rpc_funcs)
        × (c.buffer.capacity ≡ x.write_cache.buffer.capacity)
  worker_caller-serve s x h query_id args there registered v nonempty fits room =
      let t : Task = record { handle = h; func = func; bytes = asked query_id args } in
      let n = length (answered query_id args) in
      let (out, run, shown, size) = serve_lem query_id args fits in
      let (s', c, called, kept, sent, v', _, tasks, funcs, cap) =
        worker_caller_lem t s x stub out n there registered run v nonempty
          (omega (arith, size, fits)) room in
      (
        s',
        c,
        called,
        kept,
        sent ∙ ap (λ p. contents x.write_cache ++ frame p) shown,
        v',
        tasks,
        funcs,
        cap,
      )
