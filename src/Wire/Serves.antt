-- ===== src/Wire/Serves.antt =====
-- The server's part of a call: `read_socket`, the workers and `write_socket` of a connection that has nothing
-- in its caches when the requests come, and nothing when the responses have gone.
use cpp_rpc.Prelude.{
  ℕ, ◌<◌, ◌≤◌, ◌≡◌, sym, ap, ◌∙◌, inl, Bool, true, some, List, [], ◌∷◌, ◌++◌, append-nil, arith,
  length,
}
use cpp_rpc.Assoc.{lookup, string_key}
use cpp_rpc.Cache.Fifo.{contents}
use cpp_rpc.Package.Layout.{Header}
use cpp_rpc.Drain.Packages.{frames}
use cpp_rpc.Send.{Answer, accepts, block_size}
use cpp_rpc.IoService.{Flag, Op}
use cpp_rpc.Server.{RequestHandle, Server, received, object, read_socket, write_socket}
use cpp_rpc.Server.Sends.{write_socket_whole}
use cpp_rpc.Server.Requests.{requests, read_socket-requests}
use cpp_rpc.Stubs.{Request, Response, Codec, serve}
use cpp_rpc.Stubs.Served.{
  run_tasks, AllFit, requests_of, responses_of, tasks_of, IsParser, requests-tasks_of,
  run_tasks_lem,
}
use cpp_rpc.Wire.Asks.{IsClear}
use Prim.Native.String.{String}

module _ {K : Type 0} where
  -- a connection on which nothing waits
  pub record IsIdle (h : ℕ) (x : RequestHandle) (s : Server K) : Type 0 where
    pub there : object h s ≡ some x
    pub reads : IsClear x.read_cache
    pub writes : IsClear x.write_cache
    pub tasks : s.tasks ≡ []

module _ {A R : Type 0} (request_class : Codec (Request A)) (response_class : Codec (Response R))
    (func : String) (f : A → R) {K : Type 0} (epoll_ctl : Op → ℕ → List Flag → K → Bool × K)
    (close : ℕ → K → K) (malloc : ℕ → Bool) (got : (n : ℕ) → malloc n ≡ true)
    (parse : List ℕ → String) (parsed : IsParser request_class response_class func f parse) where
  -- The requests of some calls go through an idle server, which is idle again when their responses have
  -- gone.
  pub serves_lem :
      (h k : ℕ) (more : List Answer) (cs : List (ℕ × A)) (head : Header) (s : Server K)
      (x : RequestHandle)
      → IsIdle h x s
      → lookup func s.rpc_funcs ≡ some (serve response_class request_class func f)
      → AllFit request_class response_class func f cs
      → 0 < length (frames (requests_of request_class response_class func f cs))
      → length (frames (requests_of request_class response_class func f cs)) ≤ block_size
      → length (frames (responses_of request_class response_class func f cs)) < block_size
      → block_size ≤ k
      → (s1 s2 s3 : Server K) × (y : RequestHandle) × (read_socket epoll_ctl close malloc parse h
            head
            (received (frames (requests_of request_class response_class func f cs)))
            s
          ≡ some s1)
        × (run_tasks (length cs) s1 ≡ some s2)
        × (write_socket h (accepts k ∷ more) s2
            ≡ some (frames (responses_of request_class response_class func f cs), s3))
        × IsIdle h y s3
        × (s3.rpc_funcs ≡ s.rpc_funcs)
  serves_lem h k more cs head s x idle registered fits positive small short k_fits =
      let asked = frames (requests_of request_class response_class func f cs) in
      let answers = frames (responses_of request_class response_class func f cs) in
      let held : length (contents x.read_cache) ≡ 0 = ap length idle.reads.nothing in
      let held' : length (contents x.write_cache) ≡ 0 = ap length idle.writes.nothing in
      let (s1, c1, reads, tasks, object1, rest1, v1, funcs, cap1) =
        read_socket-requests epoll_ctl close malloc got parse h head s x asked
          (requests_of request_class response_class func f cs) [] idle.there idle.reads.valid
          positive small (omega (arith, held, small, idle.reads.room))
          (ap (λ ys. ys ++ asked) idle.reads.nothing ∙ sym (append-nil asked))
          (inl (omega arith)) in
      let waiting : s1.tasks ≡ tasks_of request_class response_class func f h cs =
        tasks
        ∙ ap
            (λ ts.
              ts
              ++ requests parse h s.rpc_funcs (requests_of request_class response_class func f cs))
            idle.tasks
        ∙ requests-tasks_of request_class response_class func f parse h s.rpc_funcs cs parsed
            registered in
      let x1 : RequestHandle = record x { read_cache = c1 } in
      let (s2, c2, ran, object2, queued, v2, tasks2, funcs2, cap2) =
        run_tasks_lem request_class response_class func f h cs s1 x1 object1
          (ap (λ fs. lookup func fs) funcs ∙ registered) waiting idle.writes.valid fits
          (omega (arith, held', short, idle.writes.room)) in
      let all : contents c2 ≡ answers = queued ∙ ap (λ ys. ys ++ answers) idle.writes.nothing in
      let x2 : RequestHandle = record x1 { write_cache = c2 } in
      let (s3, c3, writes, object3, rest3, kept, tasks3, funcs3) =
        write_socket_whole h k more s2 x2 object2 v2 (omega (arith, ap length all, short)) k_fits in
      (
        s1,
        s2,
        s3,
        record x2 { write_cache = c3 },
        reads,
        ran,
        writes ∙ ap (λ ys. some (ys, s3)) all,
        record {
          there = object3;
          reads = record {
            valid = v1;
            nothing = rest1;
            room = omega (arith, cap1, idle.reads.room);
          };
          writes = record {
            valid = kept.valid;
            nothing = rest3;
            room = omega (arith, kept.capacity, cap2, idle.writes.room);
          };
          tasks = tasks3 ∙ tasks2;
        },
        funcs3 ∙ funcs2 ∙ funcs,
      )
