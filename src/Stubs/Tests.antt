-- ===== src/Stubs/Tests.antt =====
-- A function with two arguments, and calls of it.
use Prim.Native.String.{String}
use cpp_rpc.Prelude.{
  length, ℕ, Bool, ◌+◌, ◌≡◌, refl, ap, inl, true, false, none, some, List, [], ◌∷◌, ◌++◌, replicate,
  slice, arith,
}
use cpp_rpc.Assoc.{lookup, insert, string_key}
use cpp_rpc.Cache.{Cache}
use cpp_rpc.Cache.Inv.{IsValid}
use cpp_rpc.Cache.Fifo.{contents, window}
use cpp_rpc.Drain.Packages.{frames}
use cpp_rpc.Package.Layout.{Header, header_bytes, int_bytes}
use cpp_rpc.Send.{accepts}
use cpp_rpc.IoService.{Flag, Op}
use cpp_rpc.Monitor.{new_monitor}
use cpp_rpc.Server.{
  RequestHandle, Server, received, register_rpc_func, object, read_socket, write_socket,
}
use cpp_rpc.Stubs.{Response, Codec, serve, rpc_server2, regis_helper}
use cpp_rpc.Stubs.Samples.{get_request, request_class, put_response, get_response, response_class}
use cpp_rpc.Server.Events.{run_task}
use cpp_rpc.Stubs.Overflows.{request_overflows}
use cpp_rpc.Stubs.Serve.{asked}
use cpp_rpc.Stubs.Served.{run_tasks, requests_of, served_lem}

abbrev add : ℕ × ℕ → ℕ
add (a, b) = a + b

-- a message class that writes three numbers more
abbrev put_padded : Response ℕ → List ℕ
put_padded m = 0 ∷ 0 ∷ 0 ∷ put_response m

abbrev get_padded : List ℕ → Response ℕ
get_padded (a ∷ b ∷ c ∷ ns) = get_response ns
get_padded ns = get_response []

abbrev padded_class : Codec (Response ℕ)
padded_class = record {
  serialize = put_padded;
  merge = get_padded;
  merge-serialize = response_class.merge-serialize;
}

abbrev idle : Cache
idle = record {
  buffer = record { capacity = 40; length = 0; bytes = replicate 40 0 };
  head = 0;
  tail = 0;
}

idle-IsValid : IsValid idle
idle-IsValid = record {
  storage = refl;
  small = omega arith;
  head_in = omega arith;
  tail_in = omega arith;
  started = inl refl;
}

abbrev client : RequestHandle
client = record { fd = 5; held = true; read_cache = idle; write_cache = idle }

abbrev bare : Server ℕ
bare = record {
  io_service = record { callback_map = []; kernel = 0; exit = false };
  rpc_funcs = [];
  max_client_count = 2;
  cache_size = 40;
  monitor = record (new_monitor 0 0) { connections = 1 };
  clients = 1;
  tasks = [];
  running_workers = 0;
  heap = some client ∷ [];
}

abbrev plus : ℕ → ℕ → ℕ
plus a b = a + b

abbrev server : Server ℕ
server = record bare { rpc_funcs = ("add", serve response_class request_class "add" add) ∷ [] }

registered : regis_helper "add" (rpc_server2 response_class request_class "add" plus) bare ≡ server
unfolding regis_helper register_rpc_func insert rpc_server2 serve
registered = refl

abbrev method_of : List ℕ → String
method_of ns = (get_request ns).method

abbrev calls : List (ℕ × (ℕ × ℕ))
calls = (1, (3, 4)) ∷ (2, (5, 6)) ∷ []

-- two whole requests, and the first byte of another
abbrev arrived : List ℕ
arrived = frames (requests_of request_class response_class "add" add calls) ++ 0xd5 ∷ []

abbrev ctl : Op → ℕ → List Flag → ℕ → Bool × ℕ
ctl op fd flags k = (true, k)

abbrev no_header : Header
no_header = record { magic = 0; length = 0 }

served_lem_example :
    (s1 s2 s3 : Server ℕ) × (sent : List ℕ) × (y : RequestHandle) × (read_socket ctl
        (λ fd k. k)
        (λ n. true)
        method_of
        0
        no_header
        (received arrived)
        server
      ≡ some s1)
    × (run_tasks 2 s1 ≡ some s2)
    × (write_socket 0 (accepts 9 ∷ []) s2 ≡ some (sent, s3))
    × (object 0 s3 ≡ some y)
    × (contents y.read_cache ≡ 0xd5 ∷ [])
    × (contents idle ++ frames ((1 ∷ 7 ∷ 97 ∷ 100 ∷ 100 ∷ []) ∷ (2 ∷ 11 ∷ 97 ∷ 100 ∷ 100 ∷ []) ∷ [])
        ≡ sent ++ contents y.write_cache)
    × IsValid y.read_cache
    × IsValid y.write_cache
unfolding object lookup contents window slice frames header_bytes int_bytes
served_lem_example =
    served_lem request_class response_class "add" add ctl (λ fd k. k) (λ n. true) (λ n. refl)
      method_of
      (λ query_id args.
        ap (λ m. m.method)
          (request_class.merge-serialize
            (record { method = "add"; query_id = query_id; args = args })))
      0 calls (0xd5 ∷ []) no_header server client arrived (accepts 9 ∷ []) refl idle-IsValid
      idle-IsValid refl refl (omega arith) (omega arith) (omega arith) refl (inl (omega arith))
      (omega arith, omega arith, (omega arith, omega arith, tt)) (omega arith) tt (omega arith)

-- a whole request whose response is longer, and the first byte of another
abbrev overflowing : List ℕ
overflowing = frames (asked request_class padded_class "add" add 1 (3, 4) ∷ []) ++ 0xd5 ∷ []

abbrev padded_server : Server ℕ
padded_server = record bare { rpc_funcs = ("add", serve padded_class request_class "add" add) ∷ [] }

request_overflows_example :
    (s1 : Server ℕ) × (read_socket ctl
        (λ fd k. k)
        (λ n. true)
        method_of
        0
        no_header
        (received overflowing)
        padded_server
      ≡ some s1)
    × (length s1.tasks ≡ 1)
    × (run_task s1 ≡ none)
unfolding object lookup contents window slice frames header_bytes int_bytes
request_overflows_example =
    request_overflows request_class padded_class "add" add ctl (λ fd k. k) (λ n. true) (λ n. refl)
      method_of
      (λ query_id args.
        ap (λ m. m.method)
          (request_class.merge-serialize
            (record { method = "add"; query_id = query_id; args = args })))
      0 1 (3, 4) (0xd5 ∷ []) no_header padded_server client overflowing refl idle-IsValid refl refl
      (omega arith) (omega arith) (omega arith) refl (inl (omega arith)) (omega arith)
