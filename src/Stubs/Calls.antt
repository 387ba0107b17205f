-- ===== src/Stubs/Calls.antt =====
-- The array of the client's stubs.
use cpp_rpc.Prelude.{ℕ, ◌<◌, ◌≡◌, refl, none, List, length, lt→leb}
use cpp_rpc.Stubs.{Request, Response, Codec, SendRequest, request_call}
use Prim.Native.String.{String}

-- A request that is longer than the array of the client's stub is written past its end.
pub request_call-overflow :
    {A R S : Type 0} (request_class : Codec (Request A)) (response_class : Codec (Response R))
    (send_request : SendRequest S) (func : String) (args : A) (stack : List ℕ) (query_id : ℕ)
    (s : S)
    → length stack
      < length
          (request_class.serialize (record { method = func; query_id = query_id; args = args }))
    → request_call response_class send_request request_class func args stack query_id s ≡ none
unfolding request_call
request_call-overflow request_class response_class send_request func args stack query_id s long =
    rw (lt→leb _ (length stack) long, request_call) refl
