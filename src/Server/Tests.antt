-- ===== src/Server/Tests.antt =====
-- A server with one function and one connection, and the theorems about it there.
use cpp_rpc.Prelude.{
  ℕ, zero, suc, get_elem?, ◌≡◌, refl, inl, Bool, true, false, none, some, List, [], ◌∷◌, ◌++◌,
  arith, replicate, slice, Holds,
}
use mathlib.Core.Path.{subst}
use mathlib.Core.Option.{some-injective}
use cpp_rpc.Assoc.{lookup, string_key}
use cpp_rpc.Cache.{Cache}
use cpp_rpc.Cache.Inv.{IsValid}
use cpp_rpc.Cache.Fifo.{contents, window}
use cpp_rpc.Package.Layout.{Header, header_bytes, int_bytes}
use cpp_rpc.Drain.Packages.{frames}
use cpp_rpc.IoService.{Flag, Op}
use cpp_rpc.Monitor.{new_monitor}
use cpp_rpc.Server.{
  RpcFunc, RequestHandle, Task, Server, received, object, read_socket, close_connection,
  worker_caller,
}
use cpp_rpc.Server.Counts.{IsCounted, open_count, is_open}
use cpp_rpc.Server.Rings.{IsSound, HasRings}
use cpp_rpc.Server.Caches.{run-HasRings}
use cpp_rpc.Server.Events.{Event, connects, reads, run, run-IsCounted}
use cpp_rpc.Server.Requests.{requests, wanted, read_socket-requests}
use cpp_rpc.Server.Start.{
  Service, new_service, Opening, opens, start_server, register_service, new_service_lem,
}
use cpp_rpc.Server.Close.{close_connection-tasks}
use Prim.Native.String.{String}

abbrev ctl : Op → ℕ → List Flag → ℕ → Bool × ℕ
ctl op fd flags k = (true, k)

abbrev close : ℕ → ℕ → ℕ
close fd k = k

abbrev plenty : ℕ → Bool
plenty n = true

abbrev parse : List ℕ → String
parse p = "add"

abbrev echo : RpcFunc
echo bytes n = some (bytes, n)

-- a read cache that holds the first four bytes of a package
abbrev begun : Cache
begun = record {
  buffer = record { capacity = 40; length = 0; bytes = 0xd5 ∷ 0xc4 ∷ 0xb3 ∷ 0xa2 ∷ replicate 36 0 };
  head = 0;
  tail = 4;
}

begun-IsValid : IsValid begun
begun-IsValid = record {
  storage = refl;
  small = omega arith;
  head_in = omega arith;
  tail_in = omega arith;
  started = inl refl;
}

abbrev client : RequestHandle
client = record { fd = 5; held = true; read_cache = begun; write_cache = begun }

abbrev pending : Task
pending = record { handle = 0; func = "add"; bytes = 1 ∷ [] }

abbrev server : Server ℕ
server = record {
  io_service = record { callback_map = []; kernel = 0; exit = false };
  rpc_funcs = ("add", echo) ∷ [];
  max_client_count = 2;
  cache_size = 40;
  monitor = record (new_monitor 0 0) { connections = 1 };
  clients = 1;
  tasks = pending ∷ [];
  running_workers = 0;
  heap = some client ∷ [];
}

abbrev no_header : Header
no_header = record { magic = 0; length = 0 }

-- the rest of the package, and the first byte of another
abbrev more : List ℕ
more = 1 ∷ 0 ∷ 0 ∷ 0 ∷ 7 ∷ 0xd5 ∷ []

requests_add :
    requests parse 0 server.rpc_funcs ((7 ∷ []) ∷ [])
    ≡ record { handle = 0; func = "add"; bytes = 7 ∷ [] } ∷ []
unfolding requests wanted lookup
requests_add = refl

read_socket-requests_example :
    (s : Server ℕ) × (c : Cache) × (read_socket ctl close plenty parse 0 no_header
        (received more)
        server
      ≡ some s)
    × (s.tasks ≡ server.tasks ++ requests parse 0 server.rpc_funcs ((7 ∷ []) ∷ []))
    × (object 0 s ≡ some (record client { read_cache = c }))
    × (contents c ≡ 0xd5 ∷ [])
    × IsValid c
    × (s.rpc_funcs ≡ server.rpc_funcs)
    × (c.buffer.capacity ≡ 40)
unfolding contents window slice frames header_bytes int_bytes object
read_socket-requests_example =
    read_socket-requests ctl close plenty (λ n. refl) parse 0 no_header server client more
      ((7 ∷ []) ∷ []) (0xd5 ∷ []) refl begun-IsValid (omega arith) (omega arith) (omega arith) refl
      (inl (omega arith))

server-IsCounted : IsCounted server
unfolding open_count is_open
server-IsCounted = record {
  clients = refl;
  monitored = refl;
  bounded = omega arith;
  small = omega arith;
}

abbrev day : List Event
day =
    connects 6
    ∷ reads 0 no_header (received more)
    ∷ connects 7
    ∷ reads 1 no_header (received [])
    ∷ []

run-IsCounted_example : Holds IsCounted (run ctl close plenty parse day server)
run-IsCounted_example = run-IsCounted ctl close plenty parse day server server-IsCounted

close_connection-tasks_example :
    ((close_connection ctl close 0 client server).tasks ≡ pending ∷ [])
    × (worker_caller pending (close_connection ctl close 0 client server) ≡ none)
close_connection-tasks_example =
    close_connection-tasks ctl close 0 client server pending refl refl refl

abbrev socket : ℕ → ℕ × ℕ
socket k = (3, suc k)

abbrev accepts : ℕ → ℕ → ℕ → Bool × ℕ
accepts fd n k = (true, suc k)

abbrev service : Service ℕ
service = new_service socket accepts accepts ctl close 1234 2 40 0 0 0

new_service_lem_example :
    Opening socket accepts accepts ctl close 3
      (opens socket accepts accepts ctl close 1234 2 0)
      service
new_service_lem_example = new_service_lem socket accepts accepts ctl close 1234 2 40 0 0 0

service_fd : service.fd ≡ 3
unfolding new_service start_server register_service cpp_rpc.IoService.register_io
    cpp_rpc.IoService.add_event
service_fd = refl

client-IsSound : (h : ℕ) (x : RequestHandle) → get_elem? server.heap h ≡ some (some x) → IsSound x
client-IsSound zero x e =
    subst IsSound (some-injective client x (some-injective (some client) (some x) e))
      (record { reads = begun-IsValid; writes = begun-IsValid })
client-IsSound (suc h) x e = absurd cc

run-HasRings_example : Holds HasRings (run ctl close plenty parse day server)
run-HasRings_example =
    run-HasRings ctl close plenty parse day server
      (record { small = omega arith; sound = client-IsSound })
