-- ===== src/Cache/Fifo.antt =====
-- The bytes that a `BufferCacheBase` holds, oldest first, and how moving `m_head` and copying in
-- change them.
use cpp_rpc.Prelude.{
  ℕ, ◌+◌, ◌-◌, ◌≤◌, ◌<◌, ◌≡◌, refl, ap₂, ◌∙◌, List, ◌++◌, arith, leb, if◌then◌else◌, length, slice,
  splice, length-append, append_assoc, length-slice, slice_add, slice_cut, slice-splice_at,
  slice-splice_after, slice-splice_before, length-splice, slice_whole, Bool-cases, inl, inr,
}
use cpp_rpc.Cache.{Cache}
use cpp_rpc.Cache.Inv.{held}

-- the `n` bytes from index `h` on of a block used up to `cap`, going round to the front
unfoldable pub window : List ℕ → ℕ → ℕ → ℕ → List ℕ
window d cap h n =
    if leb (h + n) cap then slice d h n else slice d h (cap - h) ++ slice d 0 (h + n - cap)

unfoldable pub contents : Cache → List ℕ
contents c = window c.buffer.bytes c.buffer.capacity c.head (held c)

-- an index moved on by `n`, which stays at `cap` instead of returning to 0
abbrev pub advance : ℕ → ℕ → ℕ → ℕ
advance cap h n = if leb (h + n) cap then h + n else h + n - cap

-- the block after `ys` has been written from `t` on
unfoldable pub put : List ℕ → ℕ → ℕ → List ℕ → List ℕ
put d cap t ys =
    if leb (t + length ys) cap
    then splice d t ys
    else splice (splice d t (slice ys 0 (cap - t))) 0 (slice ys (cap - t) (length ys - (cap - t)))

module _ (d : List ℕ) (cap h n : ℕ) (whole : length d ≡ cap) (hh : h ≤ cap) (hn : n ≤ cap) where
  pub length-window : length (window d cap h n) ≡ n
  unfolding window
  length-window = ground (
    arith,
    length-slice d h n,
    length-slice d h (cap - h),
    length-slice d 0 (h + n - cap),
    length-append (slice d h (cap - h)) (slice d 0 (h + n - cap)),
  )

-- A window of `n + m` bytes is one of `n` and one of `m` from where the first ends.
pub window_add :
    (d : List ℕ) (cap h n m : ℕ)
    → h ≤ cap
    → n + m ≤ cap
    → window d cap h (n + m) ≡ window d cap h n ++ window d cap (advance cap h n) m
unfolding window
window_add d cap h n m hh hn = ground (
  arith,
  slice_add d h n m,
  slice_cut d h n (cap - h),
  slice_cut d 0 (h + n - cap) (h + (n + m) - cap),
  append_assoc (slice d h n) (slice d (h + n) (cap - h - n)) (slice d 0 (h + (n + m) - cap)),
  append_assoc (slice d h (cap - h)) (slice d 0 (h + n - cap)) (slice d (h + n - cap) m),
)

module _ (d : List ℕ) (cap t : ℕ) (ys : List ℕ) (whole : length d ≡ cap) (ht : t ≤ cap) where
  -- the two parts of `ys`, before the end of the block and from its front
  abbrev first : List ℕ
  first = slice ys 0 (cap - t)

  abbrev rest : List ℕ
  rest = slice ys (cap - t) (length ys - (cap - t))

  module _ (turns : cap < t + length ys) where
    length-first : length first ≡ cap - t
    length-first = length-slice ys 0 (cap - t) (omega arith)

    length-rest : length rest ≡ t + length ys - cap
    length-rest = length-slice ys (cap - t) (length ys - (cap - t)) (omega arith) ∙ omega arith

    first-append-rest : first ++ rest ≡ ys
    first-append-rest = ground (arith, slice_cut ys 0 (cap - t) (length ys), slice_whole ys)

    length-splice-first : length (splice d t first) ≡ cap
    length-splice-first = length-splice d t first (omega (arith, length-first)) ∙ whole

    window-put_turns :
        length ys ≤ cap
        → slice (splice (splice d t first) 0 rest) t (cap - t)
            ++ slice (splice (splice d t first) 0 rest) 0 (t + length ys - cap)
          ≡ ys
    window-put_turns hn =
        ap₂ ◌++◌
          (slice-splice_after (splice d t first) 0 rest t (cap - t) (omega (arith, length-rest))
            ∙ slice-splice_at d t first (cap - t) (omega arith) length-first)
          (slice-splice_at (splice d t first) 0 rest (t + length ys - cap) (omega arith)
            length-rest)
        ∙ first-append-rest

    -- What stands past the part at the front and before `t` is untouched.
    slice-put_turns :
        (i n : ℕ)
        → t + length ys - cap ≤ i
        → i + n ≤ t
        → slice (splice (splice d t first) 0 rest) i n ≡ slice d i n
    slice-put_turns i n lo hi =
        slice-splice_after (splice d t first) 0 rest i n (omega (arith, length-rest))
        ∙ slice-splice_before d t first i n hi

  pub length-put : length ys ≤ cap → length (put d cap t ys) ≡ cap
  unfolding put
  length-put hn = elim (Bool-cases (leb (t + length ys) cap)) [
    | inl fits ↦ rw fits (length-splice d t ys (ground arith) ∙ whole)
    | inr turns ↦ rw turns (
        length-splice (splice d t first) 0 rest
          (ground (arith, length-splice-first (ground arith), length-rest (ground arith)))
        ∙ length-splice-first (ground arith))
  ]

  -- What was written is read back from where it was written.
  pub window-put_self : length ys ≤ cap → window (put d cap t ys) cap t (length ys) ≡ ys
  unfolding put window
  window-put_self hn = elim (Bool-cases (leb (t + length ys) cap)) [
    | inl fits ↦ rw fits (slice-splice_at d t ys (length ys) (omega arith) refl)
    | inr turns ↦ rw turns (window-put_turns (ground arith) hn)
  ]

  -- Bytes written behind a window leave the window as it is.
  pub window-put_before :
      (h n : ℕ)
      → h ≤ cap
      → n + length ys ≤ cap
      → t ≡ advance cap h n
      → window (put d cap t ys) cap h n ≡ window d cap h n
  unfolding put window
  window-put_before h n hh hn e = ground (
    arith,
    slice-splice_before d t ys h n,
    slice-splice_after d t ys h (cap - h),
    slice-splice_before d t ys 0 (h + n - cap),
    λ (turns : cap < t + length ys). slice-put_turns turns h n,
  )
