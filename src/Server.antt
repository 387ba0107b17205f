-- ===== src/Server.antt =====
-- The server: RPC_server/RPC_server.cc and RPC_server/RequestHandle.cc.
-- The objects `RequestHandle` live in a heap, a list that grows; a freed object is `none`, and a use of
-- it is a fault. `epoll_ctl`, `close`, the allocator and the parser of a request are parameters; what
-- `accept`, `read` and `write` return is an argument. A task of the pool is the call of
-- `worker_caller` that it was bound to.
pub mod Counts
pub mod Connections
pub mod Events
pub mod Receive
pub mod Close
pub mod Rings
pub mod Answers
pub mod Caches
pub mod Requests
pub mod Responses
pub mod Sends
pub mod Start
pub mod Begins
mod Tests
use cpp_rpc.Prelude.{
  ℕ, suc, ◌-◌, ◌^◌, Bool, true, false, Option, none, some, List, [], ◌∷◌, ◌++◌, ◌>>=◌, ◌==◌,
  if◌then◌else◌, take, length, splice, get_elem?, set, replicate,
}
use cpp_rpc.Int32.{add_int, sub_int, lt_int, le_int, of_size}
use cpp_rpc.Assoc.{Key, string_key, lookup, insert, erase}
use cpp_rpc.Buffer.{Buffer}
use cpp_rpc.Cache.{Cache, new_cache, write}
use cpp_rpc.Package.{write_package}
use cpp_rpc.Package.Layout.{Header}
use cpp_rpc.Drain.{drain}
use cpp_rpc.Send.{Answer, Sending, block_size, fresh_block, send}
use cpp_rpc.IoService.{Event, e_rw, Flag, Op, IoService, register_io, unregister_io}
use cpp_rpc.Monitor.{
  Monitor, add_connections, remove_connections, recv_bytes, send_bytes, recv_requests,
  send_responses, set_task_queue_size, set_running_workers,
}
use cpp_rpc.ThreadPool.{append_task, task_queue_size}
use Prim.Native.String.{String}

-- `RPC_func_type`: the bytes that it leaves in its buffer, and the length that it returns; `none` when it
-- writes outside the buffer
abbrev pub RpcFunc : Type 0
RpcFunc = List ℕ → ℕ → Option (List ℕ × ℕ)

-- `RequestHandle`: `m_fd` is -1 once it is closed, and `held` says whether `m_self` is set
pub record RequestHandle : Type 0 where
  pub fd : ℕ
  pub held : Bool
  pub read_cache : Cache
  pub write_cache : Cache

-- `bind(&RequestHandle::worker_caller, this, func, ptr, len)`
pub record Task : Type 0 where
  pub handle : ℕ
  pub func : String
  pub bytes : List ℕ

pub data Callback : Type 0 where
  new_connection_callback : Callback
  notify_socket_callback : ℕ → Callback

-- `ServerService` with its settings, the pool's queue and its `m_running`, and the heap
pub record Server (K : Type 0) : Type 0 where
  pub io_service : IoService K Callback
  pub rpc_funcs : List (String × RpcFunc)
  pub max_client_count : ℕ
  pub cache_size : ℕ
  pub monitor : Monitor
  pub clients : ℕ
  pub tasks : List Task
  pub running_workers : ℕ
  pub heap : List (Option RequestHandle)

-- what `read(2)` returns
pub data Received : Type 0 where
  received : List ℕ → Received
  failed : Received

-- the number as a `size_t`, and the bytes: at most as many as were asked for
pub received_length : Received → ℕ
received_length (received xs) = length (take block_size xs)
received_length failed = 2 ^ 64 - 1

pub received_bytes : Received → List ℕ
received_bytes (received xs) = take block_size xs
received_bytes failed = []

module _ {K : Type 0} where
  unfoldable pub register_rpc_func : String → RpcFunc → Server K → Server K
  register_rpc_func name f s = record s { rpc_funcs = insert name f s.rpc_funcs }

  unfoldable pub unregister_rpc_func : String → Server K → Server K
  unregister_rpc_func name s = record s { rpc_funcs = erase name s.rpc_funcs }

  -- `ServerService::close_connection(int)`
  unfoldable pub drop_client : Server K → Server K
  drop_client s = record s {
    clients = sub_int s.clients 1;
    monitor = remove_connections s.monitor 1;
  }

  unfoldable pub object : ℕ → Server K → Option RequestHandle
  object h s = get_elem? s.heap h >>= λ x. x

  unfoldable pub store : ℕ → Option RequestHandle → Server K → Server K
  store h x s = record s { heap = set s.heap h x }

  -- the task in the pool's queue, and what the monitor is told of the pool
  unfoldable pub enqueue : Task → Server K → Server K
  enqueue t s =
      let tasks = append_task s.tasks t in
      let m = set_task_queue_size s.monitor (task_queue_size tasks) in
      record s { tasks = tasks; monitor = set_running_workers m s.running_workers }

  -- `handle_request`: a request for a function that is not registered is dropped.
  pub handle_request : (List ℕ → String) → ℕ → List ℕ → Server K → Option (Server K)
  handle_request parse h bytes s =
      let func = parse bytes in
      let s1 = record s { monitor = recv_requests s.monitor 1 } in
      elim (lookup func s1.rpc_funcs) [
        | none ↦ some s1
        | some f ↦ some (enqueue (record { handle = h; func = func; bytes = bytes }) s1)
      ]

  -- `worker_caller`: a call of a function that is not registered any more throws.
  pub worker_caller : Task → Server K → Option (Server K)
  worker_caller t s = do
    x ← object t.handle s
    f ← lookup t.func s.rpc_funcs
    (bytes, len) ← f t.bytes (length t.bytes)
    (written, c) ← write_package x.write_cache bytes (of_size len)
    let s1 = store t.handle (some (record x { write_cache = c })) s
    some (if written then record s1 { monitor = send_responses s1.monitor 1 } else s1)

  -- `write_socket`
  pub write_socket : ℕ → List Answer → Server K → Option (List ℕ × Server K)
  write_socket h answers s = do
    x ← object h s
    let w : Sending Monitor = record {
      tmp = fresh_block;
      sent = [];
      cache = x.write_cache;
      state = s.monitor;
    }
    w' ← send (λ n m. send_bytes m n) answers w
    let s1 = store h (some (record x { write_cache = w'.cache })) s
    some (w'.sent, record s1 { monitor = w'.state })

module _ {K : Type 0} (epoll_ctl : Op → ℕ → List Flag → K → Bool × K) (close : ℕ → K → K) where
  pub close_fd : ℕ → Server K → Server K
  close_fd fd s = record s {
    io_service = record (s.io_service) { kernel = close fd s.io_service.kernel };
  }

  -- `RequestHandle::close_connection`: whoever holds itself is freed
  pub close_connection : ℕ → RequestHandle → Server K → Server K
  close_connection h x s =
      let (ok, io) = unregister_io epoll_ctl s.io_service x.fd e_rw in
      let s1 = close_fd x.fd (drop_client (record s { io_service = io })) in
      let closed = record x { fd = 2 ^ 32 - 1; held = false } in
      store h (if x.held then none else some closed) s1

  -- `RequestHandle::RequestHandle`, for the object at the end of the heap
  pub new_request_handle : (ℕ → Bool) → ℕ → Server K → Server K
  new_request_handle malloc fd s =
      let h = length s.heap in
      let x : RequestHandle = record {
        fd = fd;
        held = false;
        read_cache = new_cache malloc s.cache_size;
        write_cache = new_cache malloc s.cache_size;
      } in
      let (ok, io) = register_io epoll_ctl s.io_service fd e_rw (some (notify_socket_callback h)) in
      let s1 = record s { heap = s.heap ++ some x ∷ []; io_service = io } in
      if ok then s1 else close_connection h x s1

  -- `set_delete_handle`
  pub set_delete_handle : ℕ → Server K → Option (Server K)
  set_delete_handle h s = object h s >>= λ x. some (store h (some (record x { held = true })) s)

  -- `new_connection`, when `accept` returns `client_fd`
  pub new_connection : (ℕ → Bool) → ℕ → Server K → Option (Server K)
  new_connection malloc client_fd s =
      if lt_int 0 client_fd
      then (if le_int s.max_client_count s.clients
          then some (close_fd client_fd s)
          else (set_delete_handle (length s.heap) (new_request_handle malloc client_fd s) >>= λ s1.
              some (record s1 {
                clients = add_int s1.clients 1;
                monitor = add_connections s1.monitor 1;
              })))
      else some s

  -- `read_socket`. One round of the loop for every byte that the cache can hold is enough.
  pub read_socket :
      (ℕ → Bool) → (List ℕ → String) → ℕ → Header → Received → Server K → Option (Server K)
  read_socket malloc parse h head r s = do
    x ← object h s
    let len = received_length r
    let s1 = record s { monitor = recv_bytes s.monitor (of_size len) }
    let bytes = splice fresh_block.bytes 0 (received_bytes r)
    let buffer = record fresh_block { length = of_size len; bytes = bytes }
    (_, c) ← write x.read_cache buffer
    (c', _, s2) ← drain malloc (handle_request parse h) (suc c.buffer.capacity) c head buffer s1
    let x' = record x { read_cache = c' }
    let s3 = store h (some x') s2
    some (if len == 0 then close_connection h x' s3 else s3)
