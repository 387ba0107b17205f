-- ===== src/Wire/Tests.antt =====
-- Two calls of a function over the wire.
use Prim.Native.String.{String}
use cpp_rpc.Prelude.{
  ℕ, Bool, false, ◌+◌, ◌≡◌, ◌++◌, refl, ap, inl, inr, true, some, List, [], ◌∷◌, replicate, arith,
  length-replicate, slice,
}
use cpp_rpc.Cache.{Cache}
use cpp_rpc.Cache.Fifo.{contents, window}
use cpp_rpc.Package.Layout.{Header}
use cpp_rpc.Send.{accepts}
use cpp_rpc.IoService.{Flag, Op}
use cpp_rpc.Monitor.{new_monitor}
use cpp_rpc.ThreadPool.{unset}
use cpp_rpc.ResponseHandle.{ResponseHandle}
use cpp_rpc.Client.{Client}
use cpp_rpc.Server.{RequestHandle, Server, object}
use cpp_rpc.Assoc.{lookup}
use cpp_rpc.Stubs.{serve}
use cpp_rpc.Stubs.Samples.{get_request, request_class, response_class}
use cpp_rpc.Wire.{Link, session}
use cpp_rpc.Wire.Asks.{IsClear}
use cpp_rpc.Wire.Fits.{Called, AllFits, AllShow, turns_of}
use cpp_rpc.Wire.Trip.{IsAtRest, session_lem}

abbrev add : ℕ × ℕ → ℕ
add (a, b) = a + b

abbrev tag : String → ℕ → ℕ
tag func query_id = query_id

abbrev first : List ℕ → ℕ
first [] = 0
first (x ∷ xs) = x

abbrev method_of : List ℕ → String
method_of ns = (get_request ns).method

abbrev ctl : Op → ℕ → List Flag → ℕ → Bool × ℕ
ctl op fd flags k = (true, k)

abbrev empty : Cache
empty = record {
  buffer = record { capacity = 2100; length = 0; bytes = replicate 2100 0 };
  head = 0;
  tail = 0;
}

empty-IsClear : IsClear empty
unfolding contents window slice
empty-IsClear = record {
  valid = record {
    storage = length-replicate {A = ℕ} 2100 0;
    small = omega arith;
    head_in = omega arith;
    tail_in = omega arith;
    started = inl refl;
  };
  nothing = refl;
  room = omega arith;
}

abbrev connection : RequestHandle
connection = record { fd = 5; held = true; read_cache = empty; write_cache = empty }

abbrev server : Server ℕ
server = record {
  io_service = record { callback_map = []; kernel = 0; exit = false };
  rpc_funcs = ("add", serve response_class request_class "add" add) ∷ [];
  max_client_count = 2;
  cache_size = 2100;
  monitor = record (new_monitor 0 0) { connections = 1 };
  clients = 1;
  tasks = [];
  running_workers = 0;
  heap = some connection ∷ [];
}

abbrev client : Client
client = record {
  read_cache = empty;
  write_cache = empty;
  fd = 3;
  waiting = record { response_handles = []; handles = []; ready = unset };
  calls = [];
}

abbrev link : Link ℕ
link = record { client = client; server = server }

link-IsAtRest : IsAtRest 0 connection link
unfolding object
link-IsAtRest = record {
  connected = refl;
  reads = empty-IsClear;
  writes = empty-IsClear;
  idle = record { there = refl; reads = empty-IsClear; writes = empty-IsClear; tasks = refl };
}

-- The first is queued three times before the socket is ready, the second once.
abbrev calls : List (Called (ℕ × ℕ))
calls =
    record { query_id = 1; args = (3, 4); more = 2; block = replicate 2048 0 }
    ∷ record { query_id = 2; args = (5, 6); more = 0; block = replicate 2048 7 }
    ∷ []

calls-AllFits : AllFits request_class response_class "add" add tag calls
calls-AllFits = (
  record {
    nonempty = omega arith;
    shorter = omega arith;
    in_block = omega arith;
    sized = length-replicate {A = ℕ} 2048 0;
  },
  (
    record {
      nonempty = omega arith;
      shorter = omega arith;
      in_block = omega arith;
      sized = length-replicate {A = ℕ} 2048 7;
    },
    tt,
  ),
)

abbrev no_header : Header
no_header = record { magic = 0; length = 0 }

session_lem_example :
    (l : Link ℕ) × (y : RequestHandle) × (ds : List ResponseHandle) × (session ctl
        (λ fd k. k)
        (λ n. true)
        method_of
        first
        0
        no_header
        (accepts 4096 ∷ [])
        (accepts 2048 ∷ [])
        (turns_of request_class response_class "add" add tag calls)
        link
      ≡ some (inr l))
    × (l.client.waiting.handles ≡ [] ++ ds)
    × AllShow request_class response_class "add" add tag calls ds
    × IsAtRest 0 y l
    × (l.server.rpc_funcs ≡ server.rpc_funcs)
unfolding lookup
session_lem_example =
    session_lem request_class response_class "add" add tag ctl (λ fd k. k) (λ n. true) (λ n. refl)
      method_of
      (λ query_id args.
        ap (λ m. m.method)
          (request_class.merge-serialize
            (record { method = "add"; query_id = query_id; args = args })))
      first (λ query_id args. refl) 0 4096 2048 [] [] (omega arith) (omega arith) no_header calls
      link connection calls-AllFits link-IsAtRest refl
