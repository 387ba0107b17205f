-- ===== src/Stubs/Overflows.antt =====
-- A response that is longer than its request, from the bytes of the request to the stub's write: the macros of
-- RPC_server/RPC_server_template.h behind `read_socket` and `worker_caller` of RPC_server/RequestHandle.cc.
use cpp_rpc.Prelude.{
  ℕ, ◌+◌, ◌<◌, ◌≤◌, ◌≡◌, ap, ◌∙◌, Bool, true, none, some, List, [], ◌∷◌, ◌++◌, length,
}
use cpp_rpc.Assoc.{lookup, string_key}
use cpp_rpc.Cache.Inv.{IsValid}
use cpp_rpc.Cache.Fifo.{contents}
use cpp_rpc.Package.Layout.{Header}
use cpp_rpc.Drain.Packages.{frames, IsUnfinished}
use cpp_rpc.Send.{block_size}
use cpp_rpc.IoService.{Flag, Op}
use cpp_rpc.Server.{RequestHandle, Task, Server, received, object, read_socket}
use cpp_rpc.Server.Events.{run_task, run_task-oldest, object-tasks}
use cpp_rpc.Server.Requests.{requests, read_socket-requests}
use cpp_rpc.Server.Responses.{worker_caller_fault}
use cpp_rpc.Stubs.{Request, Response, Codec, serve}
use cpp_rpc.Stubs.Serve.{asked, answered, serve_overflows}
use cpp_rpc.Stubs.Served.{IsParser, requests-tasks_of}
use Prim.Native.String.{String}

module _ {A R : Type 0} (request_class : Codec (Request A)) (response_class : Codec (Response R))
    (func : String) (f : A → R) {K : Type 0} (epoll_ctl : Op → ℕ → List Flag → K → Bool × K)
    (close : ℕ → K → K) (malloc : ℕ → Bool) (got : (n : ℕ) → malloc n ≡ true)
    (parse : List ℕ → String) (parsed : IsParser request_class response_class func f parse) where
  abbrev req : ℕ → A → List ℕ
  req = asked request_class response_class func f

  -- With a block that comes, the read cache has a whole request for a registered function and an unfinished
  -- rest, and no task waits. If the response is longer than the request, `read_socket` queues the call,
  -- and the worker that takes it writes outside the array that holds the request: a fault. Conditions:
  -- the read cache is in order and has room, malloc finds memory, and the parser finds the function's
  -- name.
  pub request_overflows :
      (h query_id : ℕ) (args : A) (rest : List ℕ) (head : Header) (s : Server K) (x : RequestHandle)
      (xs : List ℕ)
      → object h s ≡ some x
      → IsValid x.read_cache
      → s.tasks ≡ []
      → lookup func s.rpc_funcs ≡ some (serve response_class request_class func f)
      → 0 < length xs
      → length xs ≤ block_size
      → length xs + length (contents x.read_cache) < x.read_cache.buffer.capacity
      → contents x.read_cache ++ xs ≡ frames (req query_id args ∷ []) ++ rest
      → IsUnfinished rest
      → length (req query_id args)
        < length (answered request_class response_class func f query_id args)
      → (s1 : Server K) × (read_socket epoll_ctl close malloc parse h head (received xs) s
          ≡ some s1)
        × (length s1.tasks ≡ 1)
        × (run_task s1 ≡ none)
  request_overflows h query_id args rest head s x xs there v idle registered p k room whole
        unfinished longer =
      let cs = (query_id, args) ∷ [] in
      let t : Task = record { handle = h; func = func; bytes = req query_id args } in
      let (s1, c1, reads, tasks, object1, rest1, v1, funcs, _) =
        read_socket-requests epoll_ctl close malloc got parse h head s x xs (req query_id args ∷ [])
          rest there v p k room whole unfinished in
      let waiting : s1.tasks ≡ t ∷ [] =
        tasks
        ∙ ap (λ ts. ts ++ requests parse h s.rpc_funcs (req query_id args ∷ [])) idle
        ∙ requests-tasks_of request_class response_class func f parse h s.rpc_funcs cs parsed
            registered in
      (
        s1,
        reads,
        ap length waiting,
        run_task-oldest s1 t [] waiting
            ∙ worker_caller_fault t (record s1 { tasks = [] }) (record x { read_cache = c1 })
                (serve response_class request_class func f) (object-tasks h s1 [] ∙ object1)
                (ap (λ fs. lookup func fs) funcs ∙ registered)
                (serve_overflows request_class response_class func f query_id args longer),
      )
