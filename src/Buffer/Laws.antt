-- ===== src/Buffer/Laws.antt =====
-- What `memcpy` and the functions of RPC_util/buffer.cc do to a block that is as long as its
-- capacity says.
use cpp_rpc.Prelude.{
  ℕ, ◌+◌, ◌≤◌, ◌<◌, ◌^◌, ◌≡◌, refl, replicate, Bool, true, none, some, List, arith, length, slice,
  splice, length-splice, length-replicate, slice_whole, slice-splice_at, ◌>>=◌,
}
use cpp_rpc.Buffer.{Buffer, memcpy, buffer_free, buffer_calloc, buffer_realloc, buffer_copy}

-- The block holds what the capacity promises.
abbrev pub IsSized : Buffer → Type 0
IsSized b = b.capacity ≤ length b.bytes

-- Inside both blocks `memcpy` copies.
pub memcpy_lem :
    (dst : List ℕ) (off : ℕ) (src : List ℕ) (from n : ℕ)
    → off + n ≤ length dst
    → from + n ≤ length src
    → memcpy dst off src from n ≡ some (splice dst off (slice src from n))
unfolding memcpy
memcpy_lem dst off src from n h k = ground arith

-- A copy that would read past the end of its source faults.
pub memcpy_fault :
    (dst : List ℕ) (off : ℕ) (src : List ℕ) (from n : ℕ)
    → length src < from + n
    → memcpy dst off src from n ≡ none
unfolding memcpy
memcpy_fault dst off src from n h = ground arith

pub memcpy_whole :
    (dst src : List ℕ)
    → length src ≤ length dst
    → memcpy dst 0 src 0 (length src) ≡ some (splice dst 0 src)
memcpy_whole dst src h =
    rw (memcpy_lem dst 0 src 0 (length src) (omega arith) (omega arith), slice_whole src)

module _ (malloc : ℕ → Bool) where
  pub buffer_calloc-full :
      (b : Buffer) (len : ℕ)
      → len < 2 ^ 31
      → malloc len ≡ true
      → buffer_calloc malloc b len ≡ record { capacity = len; length = 0; bytes = replicate len 0 }
  unfolding buffer_calloc
  buffer_calloc-full b len h m = ground arith

  -- Reallocation keeps the block as long as its capacity, and where memory is found the capacity is
  -- at least what was asked for.
  pub buffer_realloc_lem :
      (b : Buffer) (len : ℕ)
      → len < 2 ^ 31
      → malloc len ≡ true
      → IsSized b
      → IsSized (buffer_realloc malloc b len)
        × (len ≤ (buffer_realloc malloc b len).capacity)
        × (len ≤ length (buffer_realloc malloc b len).bytes)
  unfolding buffer_realloc buffer_calloc buffer_free
  buffer_realloc_lem b len h m s = ground (arith, length-replicate len (let z : ℕ = 0 in z))

  capacity-realloc :
      (b : Buffer) (len : ℕ)
      → len < 2 ^ 31
      → malloc len ≡ true
      → b.capacity ≤ (buffer_realloc malloc b len).capacity
  unfolding buffer_realloc buffer_calloc buffer_free
  capacity-realloc b len h m = ground arith

  copy-realloc :
      (b : Buffer) (ptr : List ℕ) (len : ℕ)
      → let grown = buffer_realloc malloc b len in
        buffer_copy malloc b ptr len
        ≡ (memcpy grown.bytes 0 ptr 0 len >>= λ d. some (record grown { length = len; bytes = d }))
  unfolding buffer_copy buffer_realloc
  copy-realloc b ptr len = ground arith

  -- `buffer_copy` leaves the buffer holding the bytes it was given, grown if it was too small, and
  -- never shrinks it.
  pub buffer_copy_lem :
      (b : Buffer) (ptr : List ℕ)
      → length ptr < 2 ^ 31
      → malloc (length ptr) ≡ true
      → IsSized b
      → (d : Buffer) × (buffer_copy malloc b ptr (length ptr) ≡ some d)
        × (d.length ≡ length ptr)
        × (slice d.bytes 0 (length ptr) ≡ ptr)
        × IsSized d
        × (b.capacity ≤ d.capacity)
  buffer_copy_lem b ptr h m s =
      let grown = buffer_realloc malloc b (length ptr) in
      let fits = buffer_realloc_lem b (length ptr) h m s in
      (
        record grown { length = length ptr; bytes = splice grown.bytes 0 ptr },
        rw (copy-realloc b ptr (length ptr), memcpy_whole grown.bytes ptr fits.2, ◌>>=◌),
        refl,
        slice-splice_at grown.bytes 0 ptr (length ptr) (omega arith) refl,
        omega (arith, length-splice grown.bytes 0 ptr, fits.0, fits.2),
        capacity-realloc b (length ptr) h m,
      )
