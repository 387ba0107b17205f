-- ===== src/Cache/Read.antt =====
-- `read` and `have_a_look` of RPC_util/buffer.cc against the queue of bytes that is held.
use cpp_rpc.Prelude.{
  ℕ, ◌-◌, ◌≤◌, ◌<◌, ◌^◌, ◌≡◌, refl, inl, inr, some, List, ◌++◌, ◌>>=◌, true, false, arith, min,
  length, slice, splice, Bool-cases, length-slice, length-splice, splice_twice, slice_zero,
}
use cpp_rpc.Buffer.{Buffer}
use cpp_rpc.Buffer.Laws.{memcpy_lem}
use cpp_rpc.Cache.{Cache, is_empty, clip, copy_out, have_a_look, look_clipped, read, read_clipped}
use cpp_rpc.Cache.Inv.{IsValid, held, size_lem, held-le-capacity, head_after_lem}
use cpp_rpc.Cache.Fifo.{window, contents, advance, length-window, window_add}

module _ {c : Cache} (v : IsValid c) where
  -- the bytes that a read of `n` hands out, and the cache that it leaves
  abbrev pub front : ℕ → List ℕ
  front n = window c.buffer.bytes c.buffer.capacity c.head n

  abbrev pub popped : ℕ → Cache
  popped n = record c { head = advance c.buffer.capacity c.head n }

  copy_out_lem :
      (buf : Buffer)
      → buf.length ≤ held c
      → buf.length ≤ length buf.bytes
      → copy_out c buf ≡ some (splice buf.bytes 0 (front buf.length))
  unfolding copy_out window
  copy_out_lem buf h k = ground (
    arith,
    memcpy_lem buf.bytes 0 c.buffer.bytes c.head buf.length,
    memcpy_lem buf.bytes 0 c.buffer.bytes c.head lap,
    memcpy_lem (splice buf.bytes 0 (slice c.buffer.bytes c.head lap)) lap c.buffer.bytes 0
        (buf.length - lap),
    length-slice c.buffer.bytes c.head lap,
    length-slice c.buffer.bytes 0 (buf.length - lap),
    length-splice buf.bytes 0 (slice c.buffer.bytes c.head lap),
    splice_twice buf.bytes (slice c.buffer.bytes c.head lap)
        (slice c.buffer.bytes 0 (buf.length - lap)),
  )
    where
      lap : ℕ
      lap = c.buffer.capacity - c.head

  held-popped : (n : ℕ) → n ≤ held c → held (popped n) ≡ held c - n
  held-popped n h = ground arith

  popped-IsValid : (n : ℕ) → n ≤ held c → IsValid (popped n)
  popped-IsValid n h = ground arith

  contents-popped : (n : ℕ) → n ≤ held c → contents c ≡ front n ++ contents (popped n)
  unfolding contents
  contents-popped n h = ground (
    arith,
    held-popped n h,
    held-le-capacity v,
    window_add c.buffer.bytes c.buffer.capacity c.head n (held c - n),
  )

  pub length-contents : length (contents c) ≡ held c
  unfolding contents
  length-contents =
      length-window c.buffer.bytes c.buffer.capacity c.head (held c) v.storage v.head_in
        (held-le-capacity v)

  pub is_empty_of_contents : 0 < length (contents c) → is_empty c ≡ false
  unfolding is_empty
  is_empty_of_contents h = ground (arith, length-contents)

  clip_lem :
      (buf : Buffer)
      → buf.length < 2 ^ 31
      → clip c buf ≡ record buf { length = min buf.length (held c) }
  unfolding clip
  clip_lem buf h = ground (arith, size_lem v, held-le-capacity v)

  module _ (b : Buffer) (h : b.length ≤ held c) (k : b.length ≤ length b.bytes) where
    length-front : length (front b.length) ≡ b.length
    length-front =
        length-window c.buffer.bytes c.buffer.capacity c.head b.length v.storage v.head_in
          (omega (arith, held-le-capacity v))

    abbrev filled : Buffer
    filled = record b { bytes = splice b.bytes 0 (front b.length) }

    -- On an empty cache nothing is asked for, and nothing is copied.
    filled_empty : is_empty c ≡ true → (b.length ≡ 0) × (filled ≡ b) × (popped b.length ≡ c)
    unfolding is_empty window splice slice
    filled_empty e = ground (arith, slice_zero c.buffer.bytes c.head)

    read_clipped_lem : read_clipped c b ≡ some (b.length, filled, popped b.length)
    unfolding read_clipped
    read_clipped_lem = elim (Bool-cases (is_empty c)) [
      | inl e ↦ ground (arith, filled_empty e)
      | inr e ↦ rw (e, copy_out_lem b h k, ◌>>=◌, head_after_lem v b.length h)
    ]

    look_clipped_lem : look_clipped c b ≡ some (b.length, filled)
    unfolding look_clipped
    look_clipped_lem = elim (Bool-cases (is_empty c)) [
      | inl e ↦ ground (arith, filled_empty e)
      | inr e ↦ rw (e, copy_out_lem b h k, ◌>>=◌)
    ]

  -- `read` hands out the oldest bytes, as many as were asked for or as there are, at the start of
  -- the caller's block, and leaves the younger ones; given room in that block it never faults.
  pub read_refines :
      (buf : Buffer)
      → buf.length < 2 ^ 31
      → min buf.length (length (contents c)) ≤ length buf.bytes
      → (out : List ℕ) × (c' : Cache) × (read c buf
          ≡ some
              (length out, record buf { length = length out; bytes = splice buf.bytes 0 out }, c'))
        × (length out ≡ min buf.length (length (contents c)))
        × (contents c ≡ out ++ contents c')
        × IsValid c'
        × (c'.buffer ≡ c.buffer)
  unfolding read
  read_refines buf h k =
      let n = min buf.length (held c) in
      let fits : n ≤ length buf.bytes = omega (arith, length-contents) in
      let b = record buf { length = n } in
      let e : length (front n) ≡ n = length-front b (omega arith) fits in
      (
        front n,
        popped n,
        rw (clip_lem buf h, e) (read_clipped_lem b (omega arith) fits),
        omega (arith, e, length-contents),
        contents-popped n (omega arith),
        popped-IsValid n (omega arith),
        refl,
      )

  -- `have_a_look` shows the bytes that `read` would hand out, and the cache stays as it is.
  pub have_a_look_refines :
      (buf : Buffer)
      → buf.length < 2 ^ 31
      → min buf.length (length (contents c)) ≤ length buf.bytes
      → (out rest : List ℕ) × (have_a_look c buf
          ≡ some (length out, record buf { length = length out; bytes = splice buf.bytes 0 out }))
        × (length out ≡ min buf.length (length (contents c)))
        × (contents c ≡ out ++ rest)
  unfolding have_a_look
  have_a_look_refines buf h k =
      let n = min buf.length (held c) in
      let fits : n ≤ length buf.bytes = omega (arith, length-contents) in
      let b = record buf { length = n } in
      let e : length (front n) ≡ n = length-front b (omega arith) fits in
      (
        front n,
        contents (popped n),
        rw (clip_lem buf h, e) (look_clipped_lem b (omega arith) fits),
        omega (arith, e, length-contents),
        contents-popped n (omega arith),
      )
