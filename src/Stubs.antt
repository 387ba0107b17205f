-- ===== src/Stubs.antt =====
-- The macros of RPC_server/RPC_server_template.h and RPC_client/RPC_client_template.h, from which the code
-- generator makes the two ends of a call.
-- The classes of the messages are generated by protobuf, and so are parameters: a codec writes a message
-- as bytes and reads it again. A function that is called remotely has its arguments as a tuple and is
-- pure. `none` is an access outside an array.
pub mod Serve
pub mod Calls
pub mod Served
pub mod Overflows
pub mod Samples
mod Tests
use cpp_rpc.Prelude.{
  ℕ, suc, ◌+◌, ◌%◌, ◌^◌, ◌⊎◌, inl, inr, ◌≡◌, Bool, Option, none, some, List, [], ◌∷◌, ◌>>=◌, length,
  take, splice, if◌then◌else◌, leb,
}
use cpp_rpc.Int32.{add_int}
use cpp_rpc.Assoc.{string_key}
use text.Mathlib.Text.{◌==◌ as str_eq}
use cpp_rpc.ResponseHandle.{State}
use cpp_rpc.Server.{RpcFunc, Server, register_rpc_func}
use Prim.Native.String.{String}

-- `RPC_<func>_request`: its method, its query_id, and the fields named after the arguments
pub record Request (A : Type 0) : Type 0 where
  pub method : String
  pub query_id : ℕ
  pub args : A

-- `RPC_<func>_response`
pub record Response (R : Type 0) : Type 0 where
  pub method : String
  pub query_id : ℕ
  pub result : R

-- A protobuf class: SerializeWithCachedSizesToArray writes ByteSize bytes, and
-- MergePartialFromCodedStream into a new message gives back what was written.
pub record Codec (M : Type 0) : Type 0 where
  pub serialize : M → List ℕ
  pub merge : List ℕ → M
  pub merge-serialize : (m : M) → merge (serialize m) ≡ m

module _ {R : Type 0} (response_class : Codec (Response R)) where
  -- The end of each RPC_SERVER macro: the response is written over the request.
  unfoldable pub respond : String → ℕ → R → List ℕ → Option (List ℕ × ℕ)
  respond method query_id result buf =
      let out =
        response_class.serialize
          (record { method = method; query_id = query_id; result = result }) in
      if leb (length out) (length buf) then some (splice buf 0 out, length out) else none

  module _ {A : Type 0} (request_class : Codec (Request A)) where
    unfoldable pub serve : String → (A → R) → RpcFunc
    serve func f buf len =
        let request = request_class.merge (take len buf) in
        if str_eq request.method func
        then respond request.method request.query_id (f request.args) buf
        else some (buf, 0)

  unfoldable pub rpc_server0 : Codec (Request (Unit {0})) → String → R → RpcFunc
  rpc_server0 q func f = serve q func (λ _. f)

  unfoldable pub rpc_server1 : {A : Type 0} → Codec (Request A) → String → (A → R) → RpcFunc
  rpc_server1 q func f = serve q func f

  unfoldable pub rpc_server2 :
      {A B : Type 0} → Codec (Request (A × B)) → String → (A → B → R) → RpcFunc
  rpc_server2 q func f = serve q func (λ (a, b). f a b)

  unfoldable pub rpc_server3 :
      {A B C : Type 0} → Codec (Request (A × B × C)) → String → (A → B → C → R) → RpcFunc
  rpc_server3 q func f = serve q func (λ (a, b, c). f a b c)

  unfoldable pub rpc_server4 :
      {A B C D : Type 0} → Codec (Request (A × B × C × D)) → String → (A → B → C → D → R) → RpcFunc
  rpc_server4 q func f = serve q func (λ (a, b, c, d). f a b c d)

  unfoldable pub rpc_server5 :
      {A B C D E : Type 0}
      → Codec (Request (A × B × C × D × E))
      → String
      → (A → B → C → D → E → R)
      → RpcFunc
  rpc_server5 q func f = serve q func (λ (a, b, c, d, e). f a b c d e)

-- `RegisHelper`
unfoldable pub regis_helper : {K : Type 0} → String → RpcFunc → Server K → Server K
regis_helper func stub s = register_rpc_func func stub s

-- `send_request` of RPC_client.h, on a world `S`: it throws, or leaves a response in the array and returns
-- its length.
abbrev pub SendRequest : Type 0 → Type 0
SendRequest S = String → ℕ → List ℕ → ℕ → S → Option ((State ⊎ (List ℕ × ℕ)) × S)

-- The end of each RPC_CLIENT macro; `stack` is what `buf[BLOCK]` holds at first, and the first number the
-- static `query_id`.
module _ {R S : Type 0} (response_class : Codec (Response R)) (send_request : SendRequest S) where
  unfoldable pub receive : State ⊎ (List ℕ × ℕ) → Option (State ⊎ R)
  receive (inl e) = some (inl e)
  receive (inr (buf, len)) =
      if leb len (length buf) then some (inr (response_class.merge (take len buf)).result) else none

  unfoldable pub request_call :
      {A : Type 0} → Codec (Request A) → String → A → List ℕ → ℕ → S → Option ((State ⊎ R) × ℕ × S)
  request_call request_class func args stack query_id s =
      let out =
        request_class.serialize (record { method = func; query_id = query_id; args = args }) in
      if leb (length out) (length stack)
      then (do
        (answer, s') ← send_request func query_id (splice stack 0 out) (length out) s
        result ← receive answer
        some (result, add_int query_id 1, s'))
      else none

  unfoldable pub rpc_client0 :
      Codec (Request (Unit {0})) → String → List ℕ → ℕ → S → Option ((State ⊎ R) × ℕ × S)
  rpc_client0 q func stack query_id s = request_call q func tt stack query_id s

  unfoldable pub rpc_client1 :
      {A : Type 0} → Codec (Request A) → String → A → List ℕ → ℕ → S → Option ((State ⊎ R) × ℕ × S)
  rpc_client1 q func a stack query_id s = request_call q func a stack query_id s

  unfoldable pub rpc_client2 :
      {A B : Type 0}
      → Codec (Request (A × B))
      → String
      → A
      → B
      → List ℕ
      → ℕ
      → S
      → Option ((State ⊎ R) × ℕ × S)
  rpc_client2 q func a b stack query_id s = request_call q func (a, b) stack query_id s

  unfoldable pub rpc_client3 :
      {A B C : Type 0}
      → Codec (Request (A × B × C))
      → String
      → A
      → B
      → C
      → List ℕ
      → ℕ
      → S
      → Option ((State ⊎ R) × ℕ × S)
  rpc_client3 q func a b c stack query_id s = request_call q func (a, b, c) stack query_id s

  unfoldable pub rpc_client4 :
      {A B C D : Type 0}
      → Codec (Request (A × B × C × D))
      → String
      → A
      → B
      → C
      → D
      → List ℕ
      → ℕ
      → S
      → Option ((State ⊎ R) × ℕ × S)
  rpc_client4 q func a b c d stack query_id s = request_call q func (a, b, c, d) stack query_id s

  unfoldable pub rpc_client5 :
      {A B C D E : Type 0}
      → Codec (Request (A × B × C × D × E))
      → String
      → A
      → B
      → C
      → D
      → E
      → List ℕ
      → ℕ
      → S
      → Option ((State ⊎ R) × ℕ × S)
  rpc_client5 q func a b c d e stack query_id s =
      request_call q func (a, b, c, d, e) stack query_id s
