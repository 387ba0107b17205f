-- ===== src/Wire.antt =====
-- A client and the server on the two ends of one connection: the handlers of RPC_client/RPC_client.cc and
-- of RPC_server/RequestHandle.cc one after the other, each with the bytes that the other has sent. The loop
-- of `send_request` does not end: a turn is its first rounds, and each call is of another thread.
pub mod Asks
pub mod Serves
pub mod Fits
pub mod Trip
mod Tests
use cpp_rpc.Prelude.{◌≡◌, refl, ℕ, ◌⊎◌, inl, inr, Bool, Option, some, List, [], ◌∷◌, ◌>>=◌}
use cpp_rpc.Package.Layout.{Header}
use cpp_rpc.Send.{Answer}
use cpp_rpc.IoService.{Flag, Op}
use cpp_rpc.ResponseHandle.{State}
use cpp_rpc.Client.{Client, begin_request, request_rounds}
use cpp_rpc.Server.{Server, received}
use cpp_rpc.Stubs.Served.{run_tasks}
use Prim.Native.String.{String}

-- the two ends
pub record Link (K : Type 0) : Type 0 where
  pub client : Client
  pub server : Server K

-- a request: its tag and bytes, how often the loop runs, and what its handle's array holds at first
pub record Turn : Type 0 where
  pub tag : ℕ
  pub bytes : List ℕ
  pub rounds : ℕ
  pub block : List ℕ

module _ {K : Type 0} (epoll_ctl : Op → ℕ → List Flag → K → Bool × K) (close : ℕ → K → K)
    (malloc : ℕ → Bool) (parse : List ℕ → String) (response_tag : List ℕ → ℕ) where
  -- `n` rounds of the loop of `send_request`, the client's `write_socket`, the server's `read_socket` for the
  -- object `h`, a worker for each of the requests, the server's `write_socket`, and the client's
  -- `read_socket`. `up` and `down` are what the two sockets answer.
  unfoldable pub trip :
      ℕ → ℕ → List ℕ → Header → List Answer → List Answer → Link K → Option (Link K)
  trip h n buf head up down l = do
    c1 ← request_rounds n buf l.client
    (asked, c2) ← cpp_rpc.Client.write_socket up c1
    s1 ← cpp_rpc.Server.read_socket epoll_ctl close malloc parse h head (received asked) l.server
    s2 ← run_tasks n s1
    (answered, s3) ← cpp_rpc.Server.write_socket h down s2
    c3 ← cpp_rpc.Client.read_socket malloc response_tag head (received answered) c2
    some (record { client = c3; server = s3 })

  -- A request from its beginning, unless it throws, to the trip that answers it.
  unfoldable pub ask :
      ℕ → Header → List Answer → List Answer → Turn → Link K → Option (State ⊎ Link K)
  ask h head up down t l = elim (begin_request t.block t.tag l.client) [
    | inl e ↦ some (inl e)
    | inr c ↦ trip h t.rounds t.bytes head up down (record l { client = c }) >>= λ l'. some (inr l')
  ]

  -- requests one after the other, up to the first that throws
  unfoldable pub session :
      ℕ → Header → List Answer → List Answer → List Turn → Link K → Option (State ⊎ Link K)
  session h head up down [] l = some (inr l)
  session h head up down (t ∷ ts) l = ask h head up down t l >>= λ r. elim r [
    | inl e ↦ some (inl e)
    | inr l' ↦ session h head up down ts l'
  ]

  pub trip_steps :
      (h n : ℕ) (buf : List ℕ) (head : Header) (up down : List Answer) (l : Link K)
      {c1 c2 c3 : Client} {s1 s2 s3 : Server K} {asked answered : List ℕ}
      → request_rounds n buf l.client ≡ some c1
      → cpp_rpc.Client.write_socket up c1 ≡ some (asked, c2)
      → cpp_rpc.Server.read_socket epoll_ctl close malloc parse h head (received asked) l.server
        ≡ some s1
      → run_tasks n s1 ≡ some s2
      → cpp_rpc.Server.write_socket h down s2 ≡ some (answered, s3)
      → cpp_rpc.Client.read_socket malloc response_tag head (received answered) c2 ≡ some c3
      → trip h n buf head up down l ≡ some (record { client = c3; server = s3 })
  unfolding trip
  trip_steps h n buf head up down l a b c d e f =
      rw (trip, a, ◌>>=◌, b, ◌>>=◌, c, ◌>>=◌, d, ◌>>=◌, e, ◌>>=◌, f, ◌>>=◌) refl

  pub ask_steps :
      (h : ℕ) (head : Header) (up down : List Answer) (t : Turn) (l : Link K) {l' : Link K}
      {c : Client}
      → begin_request t.block t.tag l.client ≡ inr c
      → trip h t.rounds t.bytes head up down (record l { client = c }) ≡ some l'
      → ask h head up down t l ≡ some (inr l')
  unfolding ask
  ask_steps h head up down t l p q = rw (p, ask) (rw (q, ◌>>=◌) refl)
