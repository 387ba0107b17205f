-- ===== src/Cache/Write.antt =====
-- `write` of RPC_util/buffer.cc against the queue of bytes that is held.
use cpp_rpc.Prelude.{
  ℕ, ◌+◌, ◌-◌, ◌≤◌, ◌<◌, ◌^◌, ◌≡◌, ◌≢◌, refl, sym, ap, ◌∙◌, ◌⊎◌, some, List, [], ◌++◌, ◌>>=◌, true,
  false, ◌||◌, arith, ltb, ◌==◌, length, slice, splice, length-slice, length-splice, slice-slice,
  slice_zero,
}
use cpp_rpc.Buffer.{Buffer}
use cpp_rpc.Buffer.Laws.{memcpy_lem}
use cpp_rpc.Cache.{Cache, is_empty, copy_in, write, tail_after}
use cpp_rpc.Cache.Inv.{IsValid, held, free, held-le-capacity, tail_after_lem, rejects_lem}
use cpp_rpc.Cache.Fifo.{
  window, contents, advance, put, window_add, length-put, window-put_self, window-put_before,
}

module _ {c : Cache} (v : IsValid c) where
  -- A write that fits, but for one byte left: it may fill the cache only from index 0.
  pub record Accepts (n : ℕ) : Type 0 where
    pub some_bytes : 0 < n
    pub fits : n ≤ free c
    pub more_than_one : c.tail + 1 ≢ c.head
    pub not_round : (n < free c) ⊎ (c.head ≡ 0)

  abbrev pub pushed : List ℕ → Cache
  pushed ys = record c {
    buffer = record c.buffer { bytes = put c.buffer.bytes c.buffer.capacity c.tail ys };
    tail = advance c.buffer.capacity c.tail (length ys);
  }

  copy_in_lem :
      (src : List ℕ) (n : ℕ)
      → n ≤ free c
      → n ≤ length src
      → copy_in c src n ≡ some (put c.buffer.bytes c.buffer.capacity c.tail (slice src 0 n))
  unfolding copy_in put
  copy_in_lem src n h k = ground (
    arith,
    memcpy_lem c.buffer.bytes c.tail src 0 n,
    memcpy_lem c.buffer.bytes c.tail src 0 lap,
    memcpy_lem (splice c.buffer.bytes c.tail (slice src 0 lap)) 0 src lap (n - lap),
    length-slice src 0 n,
    length-slice src 0 lap,
    length-splice c.buffer.bytes c.tail (slice src 0 lap),
    slice-slice src n 0 lap,
    slice-slice src n lap (n - lap),
  )
    where
      lap : ℕ
      lap = c.buffer.capacity - c.tail

  held-pushed : (ys : List ℕ) → Accepts (length ys) → held (pushed ys) ≡ held c + length ys
  held-pushed ys a = ground arith

  pushed-IsValid : (ys : List ℕ) → 0 < length ys → length ys ≤ free c → IsValid (pushed ys)
  pushed-IsValid ys p h =
      ground (arith, held-le-capacity v, length-put c.buffer.bytes c.buffer.capacity c.tail ys)

  window-pushed :
      (ys : List ℕ)
      → length ys ≤ free c
      → window (pushed ys).buffer.bytes c.buffer.capacity c.head (held c + length ys)
        ≡ contents c ++ ys
  unfolding contents
  window-pushed ys h = ground (
    arith,
    held-le-capacity v,
    window_add (pushed ys).buffer.bytes c.buffer.capacity c.head (held c) (length ys),
    window-put_before c.buffer.bytes c.buffer.capacity c.tail ys v.storage v.tail_in c.head
        (held c),
    window-put_self c.buffer.bytes c.buffer.capacity c.tail ys v.storage v.tail_in,
  )

  module _ (buf : Buffer) (k : buf.length ≤ length buf.bytes) where
    abbrev sent : List ℕ
    sent = slice buf.bytes 0 buf.length

    length-sent : length sent ≡ buf.length
    length-sent = length-slice buf.bytes 0 buf.length (omega arith)

    tail-pushed : buf.length ≤ free c → tail_after c buf.length ≡ (pushed sent).tail
    tail-pushed h =
        tail_after_lem v buf.length h ∙ ap (advance c.buffer.capacity c.tail) (sym length-sent)

    write_lem :
        0 < buf.length
        → buf.length ≤ free c
        → c.tail + 1 ≢ c.head
        → write c buf ≡ some (buf.length, pushed sent)
    unfolding write
    write_lem p h ne = rw (
      rejects_lem v buf.length (omega (arith, held-le-capacity v)) ∙ accepted,
      copy_in_lem buf.bytes buf.length h k,
      ◌>>=◌,
      tail-pushed h,
    )
      where
        accepted :
            ((c.tail + 1 == c.head) || (ltb (free c) buf.length || (buf.length == 0))) ≡ false
        accepted = ground arith

    -- Where there is room for the block, and it does not fill a ring whose head has moved, and not just
    -- one byte is free behind the tail, `write` takes the whole block: it returns its length, and the
    -- bytes come last in the queue. The block is not empty.
    pub write_refines :
        Accepts buf.length
        → (c' : Cache) × (write c buf ≡ some (buf.length, c'))
          × (contents c' ≡ contents c ++ slice buf.bytes 0 buf.length)
          × IsValid c'
          × (c'.buffer.capacity ≡ c.buffer.capacity)
    write_refines a =
        let fits : length sent ≤ free c = omega (arith, length-sent, a.fits) in
        (
          pushed sent,
          write_lem a.some_bytes a.fits a.more_than_one,
          unfold contents in
              ap (window (pushed sent).buffer.bytes c.buffer.capacity c.head)
                (held-pushed sent (rw length-sent a))
              ∙ window-pushed sent fits,
          pushed-IsValid sent (omega (arith, length-sent, a.some_bytes)) fits,
          refl,
        )

    -- A `write` of nothing, of a negative length, of more than fits, or with one byte left returns 0
    -- and changes nothing.
    pub write_rejects :
        buf.length < 2 ^ 32
        → ((c.tail + 1 ≡ c.head) ⊎ ((free c < buf.length) ⊎ (buf.length ≡ 0)))
        → write c buf ≡ some (0, c)
    unfolding write
    write_rejects h r = rw (rejects_lem v buf.length h ∙ refused)
      where
        refused : ((c.tail + 1 == c.head) || (ltb (free c) buf.length || (buf.length == 0))) ≡ true
        refused = ground arith

    -- A block that is not empty and exactly fills a cache whose head has moved, where that is not the one
    -- byte in front of the head, is accepted and returned as written, but `m_tail` has come round to
    -- `m_head`: all the bytes held, old and new, are gone.
    pub write_round :
        0 < buf.length
        → buf.length ≡ free c
        → c.tail + 1 ≢ c.head
        → c.head ≢ 0
        → (c' : Cache) × (write c buf ≡ some (buf.length, c'))
          × (is_empty c' ≡ true)
          × (contents c' ≡ [])
    unfolding is_empty
    write_round p h ne moved =
        let back : (pushed sent).tail ≡ c.head = ground (arith, length-sent) in
        (
          pushed sent,
          write_lem p (omega arith) ne,
          ground (arith, back),
          unfold contents window in
              ground (arith, back, slice_zero (pushed sent).buffer.bytes c.head),
        )
