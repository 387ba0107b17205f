-- ===== src/Wire/Fits.antt =====
-- What is asked of a call over the wire, and what its handle shows in the end.
use cpp_rpc.Prelude.{
  ℕ, zero, suc, ◌+◌, ◌*◌, ◌<◌, ◌≤◌, ◌≡◌, refl, ap, List, [], ◌∷◌, arith, length, replicate,
}
use cpp_rpc.Assoc.{nat_key, string_key}
use cpp_rpc.Drain.Packages.{frames}
use cpp_rpc.Send.{block_size}
use cpp_rpc.ResponseHandle.{s_done, ResponseHandle}
use cpp_rpc.ResponseHandle.Outcome.{shown}
use cpp_rpc.Stubs.{Request, Response, Codec}
use cpp_rpc.Stubs.Serve.{asked, answered}
use cpp_rpc.Stubs.Served.{AllFit, requests_of, responses_of}
use cpp_rpc.Wire.{Turn}
use cpp_rpc.Wire.Asks.{length-frames-replicate}
use Prim.Native.String.{String}

-- a call, and how often the loop runs beyond the first round
pub record Called (A : Type 0) : Type 0 where
  pub query_id : ℕ
  pub args : A
  pub more : ℕ
  pub block : List ℕ

responses_short :
    (n m : ℕ) (a b : ℕ) → a ≤ b → n ≡ suc m → n * (8 + b) < block_size → n * (8 + a) < block_size
responses_short n m a b h e k = grind arith

module _ {A R : Type 0} (request_class : Codec (Request A)) (response_class : Codec (Response R))
    (func : String) (f : A → R) (hash : String → ℕ → ℕ) where
  abbrev pub req : Called A → List ℕ
  req c = asked request_class response_class func f c.query_id c.args

  abbrev pub res : Called A → List ℕ
  res c = answered request_class response_class func f c.query_id c.args

  abbrev pub turn_of : Called A → Turn
  turn_of c = record {
    tag = hash func c.query_id;
    bytes = req c;
    rounds = suc c.more;
    block = c.block;
  }

  -- the response holds something and is no longer than the request, and the packages of the request
  -- fit one block
  pub record Fits (c : Called A) : Type 0 where
    pub nonempty : 0 < length (res c)
    pub shorter : length (res c) ≤ length (req c)
    pub in_block : suc c.more * (8 + length (req c)) < block_size
    pub sized : length c.block ≡ 2048

  -- a handle that is done and shows the value of the function
  pub record Shows (c : Called A) (d : ResponseHandle) : Type 0 where
    pub done : d.state ≡ s_done
    pub tagged : d.tag ≡ hash func c.query_id
    pub value : (response_class.merge (shown d.buffer)).result ≡ f c.args

  abbrev pub again : Called A → ℕ → List (ℕ × A)
  again c n = replicate n (c.query_id, c.args)

  pub again_requests :
      (c : Called A) (n : ℕ)
      → requests_of request_class response_class func f (again c n) ≡ replicate n (req c)
  again_requests c zero = refl
  again_requests c (suc n) = ap (◌∷◌ (req c)) (again_requests c n)

  pub again_responses :
      (c : Called A) (n : ℕ)
      → responses_of request_class response_class func f (again c n) ≡ replicate n (res c)
  again_responses c zero = refl
  again_responses c (suc n) = ap (◌∷◌ (res c)) (again_responses c n)

  pub again-Fits :
      (c : Called A) (n : ℕ) → Fits c → AllFit request_class response_class func f (again c n)
  again-Fits c zero fits = tt
  again-Fits c (suc n) fits = (fits.nonempty, fits.shorter, again-Fits c n fits)

  -- the sizes of both streams
  pub streams_fit :
      (c : Called A)
      → Fits c
      → (0 < length (frames (replicate (suc c.more) (req c))))
        × (length (frames (replicate (suc c.more) (req c))) < block_size)
        × (0 < length (frames (replicate (suc c.more) (res c))))
        × (length (frames (replicate (suc c.more) (res c))) < block_size)
        × (length (res c) ≤ 2048)
  streams_fit c fits =
      let n = c.more in
      let up = length-frames-replicate (suc n) (req c) in
      let down = length-frames-replicate (suc n) (res c) in
      (
        grind (arith, up),
        omega (arith, up, fits.in_block),
        grind (arith, down),
        omega (
          arith,
          down,
          responses_short (suc n) n (length (res c)) (length (req c)) fits.shorter refl
              fits.in_block,
        ),
        grind (arith, fits.in_block, fits.shorter),
      )

  abbrev pub AllFits : List (Called A) → Type 0
  AllFits [] = Unit {0}
  AllFits (c ∷ cs) = Fits c × AllFits cs

  -- as many handles as calls, in their order
  abbrev pub AllShow : List (Called A) → List ResponseHandle → Type 0
  AllShow [] [] = Unit {0}
  AllShow (c ∷ cs) (d ∷ ds) = Shows c d × AllShow cs ds
  AllShow [] (d ∷ ds) = ⊥
  AllShow (c ∷ cs) [] = ⊥

  abbrev pub turns_of : List (Called A) → List Turn
  turns_of [] = []
  turns_of (c ∷ cs) = turn_of c ∷ turns_of cs
