-- ===== src/Wire/Asks.antt =====
-- The client's part of a call: what it sends, and what the responses do to the handle of the request.
use cpp_rpc.Prelude.{
  ℕ, zero, suc, ◌+◌, ◌*◌, ◌<◌, ◌≤◌, ◌≡◌, refl, ap, ◌∙◌, none, some, List, [], ◌∷◌, ◌++◌, ◌>>=◌,
  length, length-append, replicate, get_elem?, get_elem?-last, set, set-last, inr, arith, false,
}
use cpp_rpc.Int32.{lt_int}
use cpp_rpc.Assoc.{lookup, insert, nat_key, lookup-insert}
use cpp_rpc.Buffer.{Buffer}
use cpp_rpc.Cache.{Cache}
use cpp_rpc.Cache.Inv.{IsValid}
use cpp_rpc.Cache.Fifo.{contents}
use cpp_rpc.Package.Write.{frame}
use cpp_rpc.Drain.Packages.{frames, handle_all, length-frame}
use cpp_rpc.Send.{Answer, accepts, Sending, block_size, fresh_block}
use cpp_rpc.Send.Whole.{send_whole}
use cpp_rpc.ResponseHandle.{ResponseHandle, new_response_handle, s_waiting, s_done}
use cpp_rpc.ResponseHandle.Outcome.{shown}
use cpp_rpc.Client.{
  Client, Call, Waiting, begin_request, call, dispatch, request_rounds, write_socket,
}
use cpp_rpc.Client.Requests.{request_rounds_lem}
use cpp_rpc.Client.Responses.{dispatch_lem}

-- a cache that holds nothing and has room for a block
pub record IsClear (c : Cache) : Type 0 where
  pub valid : IsValid c
  pub nothing : contents c ≡ []
  pub room : block_size < c.buffer.capacity

pub length-frames-replicate :
    (n : ℕ) (p : List ℕ) → length (frames (replicate n p)) ≡ n * (8 + length p)
unfolding frames
length-frames-replicate zero p = omega arith
length-frames-replicate (suc n) p =
    length-append (frame p) (frames (replicate n p))
    ∙ grind (arith, length-frame p, length-frames-replicate n p)

-- After `n` rounds of the loop, `write_socket` sends `n` packages of the request.
pub asks_lem :
    (n k : ℕ) (more : List Answer) (p : List ℕ) (c : Client)
    → IsClear c.write_cache
    → 0 < length p
    → length (frames (replicate n p)) < block_size
    → block_size ≤ k
    → (c1 : Client) × (w : Cache) × (calls : List Call) × (request_rounds n p c ≡ some c1)
      × (write_socket (accepts k ∷ more) c1
          ≡ some (frames (replicate n p), record c { write_cache = w; calls = calls }))
      × IsClear w
unfolding write_socket call
asks_lem n k more p c clear positive small k_fits =
    let held : length (contents c.write_cache) ≡ 0 = ap length clear.nothing in
    let (w1, calls1, rounds, queued, v1, cap1) =
      request_rounds_lem n p c clear.valid positive (omega (arith, held, clear.room, small)) in
    let all : contents w1 ≡ frames (replicate n p) =
      queued ∙ ap (λ xs. xs ++ frames (replicate n p)) clear.nothing in
    let c1 : Client = record c { write_cache = w1; calls = calls1 } in
    let w : Sending (Unit {0}) = record { tmp = fresh_block; sent = []; cache = w1; state = tt } in
    let size = ap length all in
    let (w', sends, out, rest, kept) =
      send_whole (λ n u. u) k more w (record { valid = v1; block = refl })
        (omega (arith, size, small, k_fits)) (omega (arith, size, small)) in
    (
      c1,
      w'.cache,
      cpp_rpc.Client.modify_read c.fd ∷ calls1,
      rounds,
      rw (sends, ◌>>=◌, out, all) refl,
      record {
        valid = kept.valid;
        nothing = rest;
        room = omega (arith, kept.capacity, cap1, clear.room);
      },
    )

-- The handle of a request stands at the end of the list, and waits under its tag.
pub begin_request_lem :
    (buf : List ℕ) (tag : ℕ) (c : Client)
    → lt_int c.fd 0 ≡ false
    → (w : Waiting) × (begin_request buf tag c ≡ inr (record c { waiting = w }))
      × (lookup tag w.response_handles ≡ some (length c.waiting.handles))
      × (w.handles ≡ c.waiting.handles ++ new_response_handle buf tag ∷ [])
unfolding begin_request
begin_request_lem buf tag c up = (
  record (c.waiting) {
    response_handles = insert tag (length c.waiting.handles) c.waiting.response_handles;
    handles = c.waiting.handles ++ new_response_handle buf tag ∷ [];
  },
  rw up refl,
  ground (arith, lookup-insert tag tag (length c.waiting.handles) c.waiting.response_handles),
  refl,
)

module _ (response_tag : List ℕ → ℕ) where
  dropped_all :
      (n : ℕ) (p : List ℕ) (w : Waiting)
      → dispatch response_tag p w ≡ some w
      → handle_all (dispatch response_tag) (replicate n p) w ≡ some w
  unfolding handle_all
  dropped_all zero p w e = refl
  dropped_all (suc n) p w e = rw (e, ◌>>=◌) (dropped_all n p w e)

  -- Of some equal responses for a waiting handle the first one ends its wait; the others are dropped.
  pub dispatch_all :
      (n : ℕ) (p : List ℕ) (w : Waiting) (before : List ResponseHandle) (buf : List ℕ)
      → lookup (response_tag p) w.response_handles ≡ some (length before)
      → w.handles ≡ before ++ new_response_handle buf (response_tag p) ∷ []
      → length buf ≡ 2048
      → length p ≤ 2048
      → (w' : Waiting) × (b : Buffer) × (handle_all (dispatch response_tag) (replicate (suc n) p) w
          ≡ some w')
        × (w'.handles ≡ before ++ record { buffer = b; state = s_done; tag = response_tag p } ∷ [])
        × (shown b ≡ p)
        × (lookup (response_tag p) w'.response_handles ≡ none)
  unfolding handle_all new_response_handle
  dispatch_all n p w before buf there waits sized fits =
      let start : Buffer = record { capacity = 2048; length = 0; bytes = buf } in
      let waiting : ResponseHandle = record {
        buffer = start;
        state = s_waiting;
        tag = response_tag p;
      } in
      let (w', b, e, handles, shows, gone, again) =
        dispatch_lem response_tag p w (length before) (response_tag p) start there
          (ap (λ hs. get_elem? hs (length before)) waits ∙ get_elem?-last before waiting)
          (record { whole = sized; room = refl; fits = omega arith }) in
      let done : ResponseHandle = record { buffer = b; state = s_done; tag = response_tag p } in
      (
        w',
        b,
        rw (e, ◌>>=◌) (dropped_all n p w' again),
        handles ∙ ap (λ hs. set hs (length before) done) waits ∙ set-last before waiting done,
        ground (arith, shows),
        gone,
      )
