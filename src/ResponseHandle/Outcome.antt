-- ===== src/ResponseHandle/Outcome.antt =====
-- What a request of RPC_client/ResponseHandle.cc ends with, when responses and timeouts race.
use cpp_rpc.Prelude.{
  ℕ, ◌≤◌, ◌<◌, ◌≡◌, refl, inl, inr, Option, none, some, List, [], ◌∷◌, ◌>>=◌, arith, length, splice,
  length-splice, if◌then◌else◌, leb, slice, Bool-cases, ltb, ap, ◌∙◌, slice-splice_at, length-slice,
}
use cpp_rpc.Int32.{of_size, to_size}
use cpp_rpc.Buffer.{Buffer, memcpy}
use cpp_rpc.Buffer.Laws.{memcpy_lem, memcpy_whole}
use cpp_rpc.ThreadPool.{Ready, notify}
use cpp_rpc.ResponseHandle.{
  State, s_waiting, s_done, s_time_out, s_local_cache_full, s_server_error, s_no_connection,
  ResponseHandle, new_response_handle, fill, write, time_out, read,
}

-- what happens to a handle
pub data Step : Type 0 where
  responds : List ℕ → Step
  times_out : Step

unfoldable pub apply : Step → ResponseHandle × Ready → Option (ResponseHandle × Ready)
apply (responds p) (h, r) = write p (length p) h r >>= λ (_, h', r'). some (h', r')
apply times_out (h, r) = some (time_out h r)

unfoldable pub apply_all : List Step → ResponseHandle × Ready → Option (ResponseHandle × Ready)
apply_all [] hr = some hr
apply_all (e ∷ es) hr = apply e hr >>= apply_all es

-- the bytes of the last response that fits
unfoldable pub last_fitting : List ℕ → List Step → List ℕ
last_fitting best [] = best
last_fitting best (responds p ∷ es) = last_fitting (if leb (length p) 2048 then p else best) es
last_fitting best (times_out ∷ es) = last_fitting best es

-- The state and the response that a history leaves: the first event decides.
unfoldable pub outcome : List Step → State × List ℕ
outcome [] = (s_waiting, [])
outcome (times_out ∷ es) = (s_time_out, [])
outcome (responds p ∷ es) = (s_done, last_fitting [] (responds p ∷ es))

-- what `read` gives for a response, when its caller's buffer has 2048 bytes
unfoldable pub answer : List ℕ → List ℕ → ℕ × List ℕ
answer out p = (length p, if ltb (length p) 2048 then splice out 0 p else out)

-- the array behind `m_buffer`, and what is valid of it
pub record IsBlock (b : Buffer) : Type 0 where
  pub whole : length b.bytes ≡ 2048
  pub room : b.capacity ≡ 2048
  pub fits : b.length ≤ 2048

unfoldable pub shown : Buffer → List ℕ
shown b = slice b.bytes 0 b.length

pub fill_lem :
    (b : Buffer) (p : List ℕ)
    → IsBlock b
    → (b' : Buffer) × (fill b p (length p) ≡ some b')
      × IsBlock b'
      × (shown b' ≡ (if leb (length p) 2048 then p else shown b))
unfolding fill shown
fill_lem b p z = elim (Bool-cases (leb (length p) 2048)) [
  | inl e ↦
      let k : length p ≤ length b.bytes = ground (arith, e, z.whole) in
      (
        record b { length = of_size (length p); bytes = splice b.bytes 0 p },
        ground (arith, e, z.room, memcpy_whole b.bytes p k),
        record {
          whole = length-splice b.bytes 0 p (omega (arith, k)) ∙ z.whole;
          room = z.room;
          fits = ground (arith, e);
        },
        rw e (slice-splice_at b.bytes 0 p (of_size (length p)) (omega arith) (ground (arith, e))),
      )
  | inr e ↦ (b, ground (arith, e, z.room), z, rw e refl)
]

-- once it has timed out a handle stays as it is
timed_out_lem :
    (es : List Step) (b : Buffer) (tag : ℕ) (r : Ready)
    → let h : ResponseHandle = record { buffer = b; state = s_time_out; tag = tag } in
      (r' : Ready) × (apply_all es (h, r) ≡ some (h, r'))
unfolding apply_all apply write time_out
timed_out_lem [] b tag r = (r, refl)
timed_out_lem (responds p ∷ es) b tag r = timed_out_lem es b tag r
timed_out_lem (times_out ∷ es) b tag r = timed_out_lem es b tag (notify tag r)

-- once it is done a handle keeps the last response that fits
done_lem :
    (es : List Step) (b : Buffer) (tag : ℕ) (r : Ready)
    → IsBlock b
    → (b' : Buffer) × (r' : Ready) × (apply_all es
          (record { buffer = b; state = s_done; tag = tag }, r)
        ≡ some (record { buffer = b'; state = s_done; tag = tag }, r'))
      × IsBlock b'
      × (shown b' ≡ last_fitting (shown b) es)
unfolding apply_all apply write time_out last_fitting
done_lem [] b tag r z = (b, r, refl, z, refl)
done_lem (times_out ∷ es) b tag r z = done_lem es b tag (notify tag r) z
done_lem (responds p ∷ es) b tag r z =
    let (b1, e, z1, s) = fill_lem b p z in
    let (b2, r2, e2, z2, s2) = done_lem es b1 tag (notify tag r) z1 in
    (b2, r2, rw (e, ◌>>=◌) e2, z2, s2 ∙ ap (λ xs. last_fitting xs es) s)

module _ (out : List ℕ) (b : Buffer) (tag : ℕ) (z : IsBlock b) where
  length-shown : length (shown b) ≡ b.length
  unfolding shown
  length-shown = length-slice b.bytes 0 b.length (omega (arith, z.fits, z.whole))

  read_lem :
      length (shown b) ≤ length out
      → read out 2048 (record { buffer = b; state = s_done; tag = tag })
        ≡ some (answer out (shown b))
  unfolding read shown answer
  read_lem fits =
      let word : to_size b.length ≡ b.length = ground (arith, z.fits) in
      let copy : memcpy out 0 b.bytes 0 b.length ≡ some (splice out 0 (slice b.bytes 0 b.length)) =
        memcpy_lem out 0 b.bytes 0 b.length (omega (arith, fits, length-shown))
          (omega (arith, z.fits, z.whole)) in
      rw (word, length-shown, copy, ◌>>=◌) (ground arith)

  -- the same in every state but that of a timeout, in which there is no response
  read_state :
      (st : State) (p : List ℕ)
      → shown b ≡ p
      → (st ≡ s_time_out → p ≡ [])
      → length p ≤ length out
      → read out 2048 (record { buffer = b; state = st; tag = tag }) ≡ some (answer out p)
  unfolding read answer splice
  read_state s_time_out p s e fits = rw (e refl) refl
  read_state s_waiting p s e fits = read_lem (rw s fits) ∙ ap (λ xs. some (answer out xs)) s
  read_state s_done p s e fits = read_lem (rw s fits) ∙ ap (λ xs. some (answer out xs)) s
  read_state s_local_cache_full p s e fits =
      read_lem (rw s fits) ∙ ap (λ xs. some (answer out xs)) s
  read_state s_server_error p s e fits = read_lem (rw s fits) ∙ ap (λ xs. some (answer out xs)) s
  read_state s_no_connection p s e fits = read_lem (rw s fits) ∙ ap (λ xs. some (answer out xs)) s

  read_overflow :
      length out < length (shown b)
      → length (shown b) < 2048
      → read out 2048 (record { buffer = b; state = s_done; tag = tag }) ≡ none
  unfolding read memcpy
  read_overflow long short =
      let word : to_size b.length ≡ b.length = ground (arith, z.fits) in
      let size = length-shown in rw word (ground arith)

no_late_response : (es : List Step) → (outcome es).0 ≡ s_time_out → (outcome es).1 ≡ []
unfolding outcome
no_late_response [] e = refl
no_late_response (times_out ∷ es) e = refl
no_late_response (responds p ∷ es) e = absurd cc

-- the handle that a history leaves
outcome_handle :
    (es : List Step) (buf : List ℕ) (tag : ℕ) (r : Ready)
    → length buf ≡ 2048
    → (b : Buffer) × (r' : Ready) × (apply_all es (new_response_handle buf tag, r)
        ≡ some (record { buffer = b; state = (outcome es).0; tag = tag }, r'))
      × IsBlock b
      × (shown b ≡ (outcome es).1)
unfolding outcome new_response_handle apply_all apply write time_out last_fitting shown slice
outcome_handle [] buf tag r size =
    let b : Buffer = record { capacity = 2048; length = 0; bytes = buf } in
    (b, r, refl, record { whole = size; room = refl; fits = omega arith }, refl)
outcome_handle (times_out ∷ es) buf tag r size =
    let b : Buffer = record { capacity = 2048; length = 0; bytes = buf } in
    let (r', e) = timed_out_lem es b tag (notify tag r) in
    (b, r', e, record { whole = size; room = refl; fits = omega arith }, refl)
outcome_handle (responds p ∷ es) buf tag r size =
    let start : Buffer = record { capacity = 2048; length = 0; bytes = buf } in
    let (b1, e1, z1, s1) =
      fill_lem start p (record { whole = size; room = refl; fits = omega arith }) in
    let (b2, r2, e2, z2, s2) = done_lem es b1 tag (notify tag r) z1 in
    (b2, r2, rw (e1, ◌>>=◌) e2, z2, s2 ∙ ap (λ xs. last_fitting xs es) s1)

module _ (es : List Step) (buf : List ℕ) (tag : ℕ) (r : Ready) (out : List ℕ)
    (size : length buf ≡ 2048) where
  -- Whatever responses and timeouts come in whatever order, the first decides: if it is a timeout, the
  -- handle has timed out, and `read` returns 0; if it is a response, the handle is done, and `read`
  -- hands out the last response of at most 2048 bytes, if the caller's array has room for it. Of
  -- exactly 2048 bytes `read` returns the length and copies nothing.
  pub outcome_lem :
      length (outcome es).1 ≤ length out
      → (h : ResponseHandle) × (r' : Ready) × (apply_all es (new_response_handle buf tag, r)
          ≡ some (h, r'))
        × (h.state ≡ (outcome es).0)
        × (read out 2048 h ≡ some (answer out (outcome es).1))
  outcome_lem fits =
      let (b, r', run, z, s) = outcome_handle es buf tag r size in
      (
        record { buffer = b; state = (outcome es).0; tag = tag },
        r',
        run,
        refl,
        read_state out b tag z (outcome es).0 (outcome es).1 s (no_late_response es) fits,
      )

  -- A response of less than 2048 bytes that is longer than the caller's array, which `read` is not
  -- told the size of: `read` writes past the end of the array.
  pub outcome-overflow :
      (outcome es).0 ≡ s_done
      → length out < length (outcome es).1
      → length (outcome es).1 < 2048
      → (h : ResponseHandle) × (r' : Ready) × (apply_all es (new_response_handle buf tag, r)
          ≡ some (h, r'))
        × (read out 2048 h ≡ none)
  outcome-overflow done long short =
      let (b, r', run, z, s) = outcome_handle es buf tag r size in
      let h : ResponseHandle = record { buffer = b; state = s_done; tag = tag } in
      (
        h,
        r',
        run ∙ ap (λ st. some (record { buffer = b; state = st; tag = tag }, r')) done,
        read_overflow out b tag z (omega (arith, long, ap length s))
            (omega (arith, short, ap length s)),
      )
