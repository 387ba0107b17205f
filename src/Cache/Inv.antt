-- ===== src/Cache/Inv.antt =====
-- The representation invariant of a `BufferCacheBase`, and what the `int` arithmetic of its methods
-- comes to under it.
use cpp_rpc.Prelude.{
  ℕ, ◌+◌, ◌-◌, ◌^◌, ◌≤◌, ◌<◌, ◌≡◌, refl, ◌⊎◌, inl, Bool, true, false, ◌||◌, arith, ltb, leb, ◌==◌,
  if◌then◌else◌, length, length-replicate,
}
use cpp_rpc.Buffer.{empty_buffer}
use cpp_rpc.Buffer.Laws.{buffer_calloc-full}
use cpp_rpc.Cache.{
  Cache, new_cache, size, capacity, is_empty, is_full, rejects, head_after, tail_after,
}

pub record IsValid (c : Cache) : Type 0 where
  pub storage : length c.buffer.bytes ≡ c.buffer.capacity
  pub small : c.buffer.capacity < 2 ^ 31
  pub head_in : c.head ≤ c.buffer.capacity
  pub tail_in : c.tail ≤ c.buffer.capacity
  pub started : (c.head ≡ 0) ⊎ (0 < c.tail)

-- the number of bytes held, and the number that still fit
abbrev pub held : Cache → ℕ
held c = if leb c.head c.tail then c.tail - c.head else c.tail + c.buffer.capacity - c.head

abbrev pub free : Cache → ℕ
free c = c.buffer.capacity - held c

-- A cache that `malloc` found memory for is valid and empty.
pub new_cache-IsValid :
    (malloc : ℕ → Bool) (n : ℕ)
    → n < 2 ^ 31
    → malloc n ≡ true
    → IsValid (new_cache malloc n) × (is_empty (new_cache malloc n) ≡ true)
unfolding new_cache is_empty
new_cache-IsValid malloc n h m = rw (buffer_calloc-full malloc empty_buffer n h m) (
  record {
    storage = length-replicate n 0;
    small = h;
    head_in = omega arith;
    tail_in = omega arith;
    started = inl refl;
  },
  refl,
)

module _ {c : Cache} (v : IsValid c) where
  pub size_lem : size c ≡ held c
  unfolding size
  size_lem = ground arith

  pub held-le-capacity : held c ≤ c.buffer.capacity
  held-le-capacity = ground arith

  pub held_pos : is_empty c ≡ false → 0 < held c
  unfolding is_empty
  held_pos h = ground arith

  pub is_full_lem : is_full c ≡ (c.tail + 1 == c.head)
  unfolding is_full
  is_full_lem = ground arith

  pub head_after_lem :
      (n : ℕ)
      → n ≤ held c
      → head_after c n ≡ (
          if leb (c.head + n) c.buffer.capacity then c.head + n else c.head + n - c.buffer.capacity)
  unfolding head_after
  head_after_lem n h = ground arith

  pub tail_after_lem :
      (n : ℕ)
      → n ≤ free c
      → tail_after c n ≡ (
          if leb (c.tail + n) c.buffer.capacity then c.tail + n else c.tail + n - c.buffer.capacity)
  unfolding tail_after
  tail_after_lem n h = ground arith

  -- A write is turned down exactly when one byte is left, when it does not fit, and when its length
  -- is zero or negative.
  pub rejects_lem :
      (len : ℕ)
      → len < 2 ^ 32
      → rejects c len ≡ ((c.tail + 1 == c.head) || (ltb (free c) len || (len == 0)))
  unfolding rejects is_full capacity
  rejects_lem len h = ground (arith, size_lem)
