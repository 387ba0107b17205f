-- ===== src/Wire/Trip.antt =====
-- A call over the wire: what its handle shows in the end.
use cpp_rpc.Prelude.{
  ℕ, suc, ◌≤◌, ◌≡◌, refl, sym, ap, ◌∙◌, inl, inr, Bool, true, false, Option, ◌⊎◌, some, List, [],
  ◌∷◌, ◌++◌, ◌>>=◌, append_assoc, append-nil, arith, length, length-replicate, replicate,
}
use cpp_rpc.Int32.{lt_int}
use cpp_rpc.Assoc.{lookup, nat_key, string_key}
use cpp_rpc.Cache.Fifo.{contents}
use cpp_rpc.Package.Layout.{Header}
use cpp_rpc.Drain.Packages.{frames}
use cpp_rpc.Send.{Answer, accepts, block_size}
use cpp_rpc.IoService.{Flag, Op}
use cpp_rpc.ResponseHandle.{State, s_done, ResponseHandle}
use cpp_rpc.ResponseHandle.Outcome.{shown}
use cpp_rpc.Client.{Client, begin_request}
use cpp_rpc.Client.Responses.{read_socket-dispatch}
use cpp_rpc.Server.{RequestHandle}
use cpp_rpc.Stubs.{Request, Response, Codec, serve}
use cpp_rpc.Stubs.Serve.{answered}
use cpp_rpc.Stubs.Served.{requests_of, responses_of, IsParser}
use cpp_rpc.Wire.{Link, Turn, ask, session, trip_steps, ask_steps}
use cpp_rpc.Wire.Asks.{IsClear, asks_lem, begin_request_lem, dispatch_all}
use cpp_rpc.Wire.Serves.{IsIdle, serves_lem}
use cpp_rpc.Wire.Fits.{
  Called, Fits, Shows, AllFits, AllShow, turn_of, turns_of, req, res, again, again_requests,
  again_responses, again-Fits, streams_fit,
}
use Prim.Native.String.{String}

-- the two ends between two calls
pub record IsAtRest {K : Type 0} (h : ℕ) (x : RequestHandle) (l : Link K) : Type 0 where
  pub connected : lt_int l.client.fd 0 ≡ false
  pub reads : IsClear l.client.read_cache
  pub writes : IsClear l.client.write_cache
  pub idle : IsIdle h x l.server

module _ {A R : Type 0} (request_class : Codec (Request A)) (response_class : Codec (Response R))
    (func : String) (f : A → R) (hash : String → ℕ → ℕ) where
  module _ {K : Type 0} (epoll_ctl : Op → ℕ → List Flag → K → Bool × K) (close : ℕ → K → K)
      (malloc : ℕ → Bool) (got : (n : ℕ) → malloc n ≡ true) (parse : List ℕ → String)
      (parsed : IsParser request_class response_class func f parse) (response_tag : List ℕ → ℕ)
      (tags : (query_id : ℕ) (args : A)
        → response_tag (answered request_class response_class func f query_id args)
          ≡ hash func query_id)
      (h k k' : ℕ) (up down : List Answer) (up_fits : block_size ≤ k) (down_fits : block_size ≤ k')
      (head : Header) where
    abbrev asks : Turn → Link K → Option (State ⊎ Link K)
    asks = ask epoll_ctl close malloc parse response_tag h head (accepts k ∷ up) (accepts k' ∷ down)

    -- A call between two ends at rest: its handle, the last one, is done and shows the value of the
    -- function, and both ends are at rest again.
    ask_lem :
        (c : Called A) (l : Link K) (x : RequestHandle)
        → Fits request_class response_class func f hash c
        → IsAtRest h x l
        → lookup func l.server.rpc_funcs ≡ some (serve response_class request_class func f)
        → (l' : Link K) × (y : RequestHandle) × (d : ResponseHandle) × (asks
              (turn_of request_class response_class func f hash c)
              l
            ≡ some (inr l'))
          × (l'.client.waiting.handles ≡ l.client.waiting.handles ++ d ∷ [])
          × Shows request_class response_class func f hash c d
          × IsAtRest h y l'
          × (l'.server.rpc_funcs ≡ l.server.rpc_funcs)
    ask_lem c l x fits rest registered =
        let n = suc c.more in
        let p = res request_class response_class func f hash c in
        let (up_some, up_small, down_some, down_small, small) =
          streams_fit request_class response_class func f hash c fits in
        let (w, begun, there, handles) =
          begin_request_lem c.block (response_tag p) l.client rest.connected in
        let start =
          ap (λ g. begin_request c.block g l.client) (sym (tags c.query_id c.args)) ∙ begun in
        let c0 : Client = record (l.client) { waiting = w } in
        let (c1, w1, calls, rounds, sends, clear) =
          asks_lem n k up (req request_class response_class func f hash c) c0 rest.writes
            (omega (arith, fits.nonempty, fits.shorter)) up_small up_fits in
        let asked_all : frames (
              requests_of request_class response_class func f
                (again request_class response_class func f hash c n))
            ≡ frames (replicate n (req request_class response_class func f hash c)) =
          ap frames (again_requests request_class response_class func f hash c n) in
        let answered_all : frames (
              responses_of request_class response_class func f
                (again request_class response_class func f hash c n))
            ≡ frames (replicate n p) =
          ap frames (again_responses request_class response_class func f hash c n) in
        let sizes = ap length asked_all in
        let sizes' = ap length answered_all in
        let (s1, s2, s3, y, reads, ran, writes, idle, funcs) =
          serves_lem request_class response_class func f epoll_ctl close malloc got parse parsed h
            k' down (again request_class response_class func f hash c n) head l.server x rest.idle
            registered (again-Fits request_class response_class func f hash c n fits)
            (omega (arith, sizes, up_some)) (omega (arith, sizes, up_small))
            (omega (arith, sizes', down_small)) down_fits in
        let (w', b, all, handles', shows, gone) =
          dispatch_all response_tag c.more p w l.client.waiting.handles c.block there handles
            fits.sized small in
        let c2 : Client = record c0 { write_cache = w1; calls = calls } in
        let held : length (contents l.client.read_cache) ≡ 0 = ap length rest.reads.nothing in
        let back = frames (replicate n p) in
        let (r, receives, rest_r, v_r, cap_r) =
          read_socket-dispatch malloc got response_tag head c2 back (replicate n p) [] w'
            rest.reads.valid down_some (omega (arith, down_small))
            (omega (arith, held, down_small, rest.reads.room))
            (ap (λ ys. ys ++ back) rest.reads.nothing ∙ sym (append-nil back)) (inl (omega arith))
            all in
        let reads' = rw asked_all at reads in
        let ran' = rw (length-replicate {A = ℕ × A} n (c.query_id, c.args)) at ran in
        let writes' = rw answered_all at writes in
        let value : response_class.merge (shown b)
            ≡ record { method = func; query_id = c.query_id; result = f c.args } =
          ap response_class.merge shows
          ∙ response_class.merge-serialize
              (record { method = func; query_id = c.query_id; result = f c.args }) in
        (
          record { client = record c2 { read_cache = r; waiting = w' }; server = s3 },
          y,
          record { buffer = b; state = s_done; tag = response_tag p },
          ask_steps epoll_ctl close malloc parse response_tag h head (accepts k ∷ up)
              (accepts k' ∷ down) (turn_of request_class response_class func f hash c) l start
              (trip_steps epoll_ctl close malloc parse response_tag h n
                (req request_class response_class func f hash c) head (accepts k ∷ up)
                (accepts k' ∷ down) (record l { client = c0 }) rounds sends reads' ran' writes'
                receives),
          handles',
          record { done = refl; tagged = tags c.query_id c.args; value = ap (λ m. m.result) value },
          record {
            connected = rest.connected;
            reads = record {
              valid = v_r;
              nothing = rest_r;
              room = omega (arith, cap_r, rest.reads.room);
            };
            writes = clear;
            idle = idle;
          },
          funcs,
        )

    -- Calls one after the other over one connection, between two ends at rest, when the server has the function's
    -- stub and each goes as one trip: the client has a handle more for each of them, in their order,
    -- done and with the value of the function at the arguments of its call, however often each request was
    -- queued; and both ends are at rest again. At rest means connected, with the four caches in order,
    -- empty and larger than a block, and no task waiting. Conditions: no response is empty or longer than its
    -- request, the packages of a request fit one block together, the arrays of the handles have 2048
    -- bytes, both sockets take a block at once, malloc finds memory, and the two parsers find the
    -- function's name and the request's tag.
    pub session_lem :
        (cs : List (Called A)) (l : Link K) (x : RequestHandle)
        → AllFits request_class response_class func f hash cs
        → IsAtRest h x l
        → lookup func l.server.rpc_funcs ≡ some (serve response_class request_class func f)
        → (l' : Link K) × (y : RequestHandle) × (ds : List ResponseHandle) × (session epoll_ctl
              close malloc parse response_tag h head
              (accepts k ∷ up)
              (accepts k' ∷ down)
              (turns_of request_class response_class func f hash cs)
              l
            ≡ some (inr l'))
          × (l'.client.waiting.handles ≡ l.client.waiting.handles ++ ds)
          × AllShow request_class response_class func f hash cs ds
          × IsAtRest h y l'
          × (l'.server.rpc_funcs ≡ l.server.rpc_funcs)
    unfolding session
    session_lem [] l x fits rest registered =
        (l, x, [], refl, sym (append-nil l.client.waiting.handles), tt, rest, refl)
    session_lem (c ∷ cs) l x (fit, fits) rest registered =
        let (l1, y1, d, asked_one, one, shows, rest1, funcs1) = ask_lem c l x fit rest registered in
        let (l2, y2, ds, others, handles, all, rest2, funcs2) =
          session_lem cs l1 y1 fits rest1 (ap (λ fs. lookup func fs) funcs1 ∙ registered) in
        (
          l2,
          y2,
          d ∷ ds,
          rw (asked_one, session, ◌>>=◌) others,
          handles ∙ ap (λ hs. hs ++ ds) one ∙ append_assoc l.client.waiting.handles (d ∷ []) ds,
          (shows, all),
          rest2,
          funcs2 ∙ funcs1,
        )
