-- ===== src/Stubs/Served.antt =====
-- The server's side of a call: a client's block that completes a request, the worker, and the bytes that go
-- back, `read_socket`, `worker_caller` and `write_socket` of RPC_server/RequestHandle.cc one after the other.
use cpp_rpc.Prelude.{
  ℕ, zero, suc, ◌+◌, ◌*◌, ◌<◌, ◌≤◌, ◌≡◌, refl, sym, ap, ◌∙◌, Bool, true, Option, some, List, [],
  ◌∷◌, ◌++◌, ◌>>=◌, append-nil, append_assoc, arith, length, length-append,
}
use cpp_rpc.Assoc.{lookup, string_key}
use cpp_rpc.Cache.{Cache}
use cpp_rpc.Cache.Inv.{IsValid}
use cpp_rpc.Cache.Fifo.{contents}
use cpp_rpc.Package.Layout.{Header}
use cpp_rpc.Package.Write.{frame}
use cpp_rpc.Drain.Packages.{frames, IsUnfinished, length-frame}
use cpp_rpc.Send.{Answer, block_size}
use cpp_rpc.Send.Stream.{AllAccept}
use cpp_rpc.IoService.{Flag, Op}
use cpp_rpc.Server.{
  RpcFunc, RequestHandle, Task, Server, received, object, read_socket, write_socket,
}
use cpp_rpc.Server.Events.{run_task, run_task-oldest, object-tasks}
use cpp_rpc.Server.Sends.{write_socket_stream}
use cpp_rpc.Server.Requests.{requests, wanted, read_socket-requests}
use cpp_rpc.Stubs.{Request, Response, Codec, serve}
use cpp_rpc.Stubs.Serve.{asked, answered, worker_caller-serve}
use Prim.Native.String.{String}

module _ {K : Type 0} where
  -- that many times, a worker takes the oldest task and runs it
  pub run_tasks : ℕ → Server K → Option (Server K)
  run_tasks zero s = some s
  run_tasks (suc n) s = run_task s >>= run_tasks n

module _ {A R : Type 0} (request_class : Codec (Request A)) (response_class : Codec (Response R))
    (func : String) (f : A → R) where
  abbrev req : ℕ × A → List ℕ
  req (query_id, args) = asked request_class response_class func f query_id args

  abbrev res : ℕ × A → List ℕ
  res (query_id, args) = answered request_class response_class func f query_id args

  abbrev stub : RpcFunc
  stub = serve response_class request_class func f

  -- every response of the calls holds something, and is no longer than its request
  abbrev pub AllFit : List (ℕ × A) → Type 0
  AllFit [] = Unit {0}
  AllFit (c ∷ cs) = (0 < length (res c)) × (length (res c) ≤ length (req c)) × AllFit cs

  abbrev pub requests_of : List (ℕ × A) → List (List ℕ)
  requests_of [] = []
  requests_of (c ∷ cs) = req c ∷ requests_of cs

  abbrev pub responses_of : List (ℕ × A) → List (List ℕ)
  responses_of [] = []
  responses_of (c ∷ cs) = res c ∷ responses_of cs

  abbrev pub tasks_of : ℕ → List (ℕ × A) → List Task
  tasks_of h [] = []
  tasks_of h (c ∷ cs) = record { handle = h; func = func; bytes = req c } ∷ tasks_of h cs

  -- the parser of requests finds the function's name in every request for it
  abbrev pub IsParser : (List ℕ → String) → Type 0
  IsParser parse = (query_id : ℕ) (args : A) → parse (req (query_id, args)) ≡ func

  pub requests-tasks_of :
      (parse : List ℕ → String) (h : ℕ) (funcs : List (String × RpcFunc)) (cs : List (ℕ × A))
      → IsParser parse
      → lookup func funcs ≡ some stub
      → requests parse h funcs (requests_of cs) ≡ tasks_of h cs
  unfolding requests wanted
  requests-tasks_of parse h funcs [] parsed e = refl
  requests-tasks_of parse h funcs (c ∷ cs) parsed e =
      rw (parsed c.0 c.1, e)
        (ap (λ ts. record { handle = h; func = func; bytes = req c } ∷ ts)
          (requests-tasks_of parse h funcs cs parsed e))

  module _ {K : Type 0} where
    -- the workers answer the calls in their order
    pub run_tasks_lem :
        (h : ℕ) (cs : List (ℕ × A)) (s : Server K) (x : RequestHandle)
        → object h s ≡ some x
        → lookup func s.rpc_funcs ≡ some stub
        → s.tasks ≡ tasks_of h cs
        → IsValid x.write_cache
        → AllFit cs
        → length (frames (responses_of cs)) + length (contents x.write_cache)
          < x.write_cache.buffer.capacity
        → (s' : Server K) × (c : Cache) × (run_tasks (length cs) s ≡ some s')
          × (object h s' ≡ some (record x { write_cache = c }))
          × (contents c ≡ contents x.write_cache ++ frames (responses_of cs))
          × IsValid c
          × (s'.tasks ≡ [])
          × (s'.rpc_funcs ≡ s.rpc_funcs)
          × (c.buffer.capacity ≡ x.write_cache.buffer.capacity)
    unfolding run_tasks frames
    run_tasks_lem h [] s x there registered tasks v fits room = (
      s,
      x.write_cache,
      refl,
      there,
      sym (append-nil (contents x.write_cache)),
      v,
      tasks,
      refl,
      refl,
    )
    run_tasks_lem h (c ∷ cs) s x there registered tasks v (nonempty, short, fits) room =
        let t : Task = record { handle = h; func = func; bytes = req c } in
        let old = contents x.write_cache in
        let more = frames (responses_of cs) in
        let total : length (frame (res c) ++ more) ≡ 8 + length (res c) + length more =
          length-append (frame (res c)) more ∙ ap (λ n. n + length more) (length-frame (res c)) in
        let (s1, c1, called, object1, queued, v1, tasks1, funcs1, cap) =
          worker_caller-serve request_class response_class func f
            (record s { tasks = tasks_of h cs }) x h c.0 c.1
            (object-tasks h s (tasks_of h cs) ∙ there) registered v nonempty short
            (omega (arith, room, total)) in
        let x1 : RequestHandle = record x { write_cache = c1 } in
        let held : length (contents c1) ≡ length old + (8 + length (res c)) =
          ap length queued
          ∙ length-append old (frame (res c))
          ∙ ap (λ n. length old + n) (length-frame (res c)) in
        let (s2, c2, ran, object2, queued2, v2, tasks2, funcs2, cap2) =
          run_tasks_lem h cs s1 x1 object1 (ap (λ fs. lookup func fs) funcs1 ∙ registered) tasks1 v1
            fits (omega (arith, room, total, held, cap)) in
        (
          s2,
          c2,
          rw (run_task-oldest s t (tasks_of h cs) tasks, called, ◌>>=◌) ran,
          object2,
          queued2 ∙ ap (λ ys. ys ++ more) queued ∙ append_assoc old (frame (res c)) more,
          v2,
          tasks2,
          funcs2 ∙ funcs1,
          cap2 ∙ cap,
        )

    module _ (epoll_ctl : Op → ℕ → List Flag → K → Bool × K) (close : ℕ → K → K) (malloc : ℕ → Bool)
        (got : (n : ℕ) → malloc n ≡ true) (parse : List ℕ → String) (parsed : IsParser parse) where
      -- With a block that comes, the read cache has the requests of some calls of a registered function and
      -- an unfinished rest, and no task waits. Then `read_socket`, a worker for each of the calls
      -- and `write_socket` run one after the other: what the socket has accepted by then, with what
      -- the write cache still holds, is what the write cache held before and a package for each
      -- call, in their order, with the function's value and the number of the request. The read
      -- cache holds the unfinished rest, and both caches are in order. Conditions: both caches are
      -- in order and have room, no response is empty or longer than its request, and the socket
      -- does not fail and has a round for every block.
      pub served_lem :
          (h : ℕ) (cs : List (ℕ × A)) (rest : List ℕ) (head : Header) (s : Server K)
          (x : RequestHandle) (xs : List ℕ) (answers : List Answer)
          → object h s ≡ some x
          → IsValid x.read_cache
          → IsValid x.write_cache
          → s.tasks ≡ []
          → lookup func s.rpc_funcs ≡ some stub
          → 0 < length xs
          → length xs ≤ block_size
          → length xs + length (contents x.read_cache) < x.read_cache.buffer.capacity
          → contents x.read_cache ++ xs ≡ frames (requests_of cs) ++ rest
          → IsUnfinished rest
          → AllFit cs
          → length (frames (responses_of cs)) + length (contents x.write_cache)
            < x.write_cache.buffer.capacity
          → AllAccept answers
          → length (contents x.write_cache ++ frames (responses_of cs))
            < block_size * length answers
          → (s1 s2 s3 : Server K) × (sent : List ℕ) × (y : RequestHandle) × (read_socket epoll_ctl
                close malloc parse h head
                (received xs)
                s
              ≡ some s1)
            × (run_tasks (length cs) s1 ≡ some s2)
            × (write_socket h answers s2 ≡ some (sent, s3))
            × (object h s3 ≡ some y)
            × (contents y.read_cache ≡ rest)
            × (contents x.write_cache ++ frames (responses_of cs) ≡ sent ++ contents y.write_cache)
            × IsValid y.read_cache
            × IsValid y.write_cache
      served_lem h cs rest head s x xs answers there v v' idle registered p k room whole unfinished
            fits space a enough =
          let (s1, c1, reads, tasks, object1, rest1, v1, funcs, _) =
            read_socket-requests epoll_ctl close malloc got parse h head s x xs (requests_of cs)
              rest there v p k room whole unfinished in
          let waiting : s1.tasks ≡ tasks_of h cs =
            tasks
            ∙ ap (λ ts. ts ++ requests parse h s.rpc_funcs (requests_of cs)) idle
            ∙ requests-tasks_of parse h s.rpc_funcs cs parsed registered in
          let x1 : RequestHandle = record x { read_cache = c1 } in
          let (s2, c2, ran, object2, queued, v2, _, _, _) =
            run_tasks_lem h cs s1 x1 object1 (ap (λ fs. lookup func fs) funcs ∙ registered) waiting
              v' fits space in
          let x2 : RequestHandle = record x1 { write_cache = c2 } in
          let (sent, s3, c3, writes, object3, cut, v3) =
            write_socket_stream h answers s2 x2 object2 v2 a (rw queued enough) in
          (
            s1,
            s2,
            s3,
            sent,
            record x2 { write_cache = c3 },
            reads,
            ran,
            writes,
            object3,
            rest1,
            sym queued ∙ cut,
            v1,
            v3,
          )
