-- ===== src/Cache/Keeps.antt =====
-- What every call of the methods of RPC_util/buffer.cc keeps, whatever it is given, if it is no fault.
use cpp_rpc.Prelude.{
  ℕ, ◌+◌, ◌^◌, ◌≤◌, ◌<◌, ◌≡◌, refl, ◌∙◌, inl, inr, Bool, Bool-cases, some, List, arith, length,
  length-slice, length-splice, length-replicate, slice, leb, ltb, ◌&&◌, Holds, Holds-bind,
  Holds-each, Holds_some, >>=-eq-some, ◌>>=◌,
}
use mathlib.Core.Path.{subst}
use mathlib.Core.Option.{some-injective}
use cpp_rpc.Int32.{sub_int, le_int, to_size, to_size_lem}
use cpp_rpc.Buffer.{Buffer, memcpy, buffer_calloc}
use cpp_rpc.Cache.{
  Cache, new_cache, is_empty, clip, copy_out, head_after, read_clipped, read, rejects, copy_in,
  write,
}
use cpp_rpc.Cache.Inv.{
  IsValid, held, free, size_lem, held-le-capacity, head_after_lem, tail_after_lem, rejects_lem,
}
use cpp_rpc.Cache.Negative.{read_negative}

-- a valid cache of the same size
pub record Keeps (c c' : Cache) : Type 0 where
  pub valid : IsValid c'
  pub capacity : c'.buffer.capacity ≡ c.buffer.capacity

pub Keeps-then : {c d e : Cache} → Keeps c d → Keeps d e → Keeps c e
Keeps-then k l = record { valid = l.valid; capacity = l.capacity ∙ k.capacity }

memcpy_keeps :
    (dst : List ℕ) (off : ℕ) (src : List ℕ) (from n : ℕ)
    → Holds (λ d. length d ≡ length dst) (memcpy dst off src from n)
unfolding memcpy Holds
memcpy_keeps dst off src from n =
    elim (Bool-cases (leb (off + n) (length dst) && leb (from + n) (length src))) [
      | inl e ↦
          let n_bytes : length (slice src from n) ≡ n =
            length-slice src from n (ground (arith, e)) in
          rw e (length-splice dst off (slice src from n) (ground (arith, e, n_bytes)))
      | inr e ↦ rw e tt
    ]

copy_in_keeps :
    (c : Cache) (bytes : List ℕ) (n : ℕ)
    → Holds (λ d. length d ≡ length c.buffer.bytes) (copy_in c bytes n)
unfolding copy_in Holds
copy_in_keeps c bytes n =
    let len = sub_int c.buffer.capacity c.tail in
    elim (Bool-cases (le_int n len)) [
      | inl e ↦ rw e (memcpy_keeps c.buffer.bytes c.tail bytes 0 (to_size n))
      | inr e ↦ rw e (
          Holds-bind (λ d. length d ≡ length c.buffer.bytes) (λ d. length d ≡ length c.buffer.bytes)
            (memcpy c.buffer.bytes c.tail bytes 0 (to_size len)) _
            (memcpy_keeps c.buffer.bytes c.tail bytes 0 (to_size len))
            (λ d q s.
              Holds-each (λ d'. length d' ≡ length c.buffer.bytes)
                (memcpy d 0 bytes len (to_size (sub_int n len)))
                (λ d' q'.
                  Holds_some _ _ d' q' (memcpy_keeps d 0 bytes len (to_size (sub_int n len))) ∙ s)))
    ]

module _ {c : Cache} (v : IsValid c) where
  pub Keeps-self : Keeps c c
  Keeps-self = record { valid = v; capacity = refl }

  pub write-Keeps : (b : Buffer) → b.length < 2 ^ 32 → Holds (λ r. Keeps c r.1) (write c b)
  unfolding write Holds
  write-Keeps b word = elim (Bool-cases (rejects c b.length)) [
    | inl e ↦ rw e Keeps-self
    | inr e ↦ rw e (
        Holds-bind (λ d. length d ≡ length c.buffer.bytes) (λ r. Keeps c r.1)
          (copy_in c b.bytes b.length) _ (copy_in_keeps c b.bytes b.length)
          (λ d q s.
            let test = rejects_lem v b.length word in
            let fits : b.length ≤ free c = ground (arith, test, e) in
            let some_bytes : 0 < b.length = ground (arith, test, e) in
            let moved = tail_after_lem v b.length fits in
            record {
              valid = record {
                storage = s ∙ v.storage;
                small = v.small;
                head_in = v.head_in;
                tail_in = ground (arith, moved, v.tail_in, fits);
                started = inr (ground (arith, moved, some_bytes));
              };
              capacity = refl;
            }))
  ]

  clip_small : (b : Buffer) → b.length < 2 ^ 31 → (clip c b).length ≤ held c
  unfolding clip
  clip_small b small = ground (arith, size_lem v, held-le-capacity v, v.small)

  pub read-Keeps : (b : Buffer) → b.length < 2 ^ 32 → Holds (λ r. Keeps c r.2) (read c b)
  unfolding read read_clipped Holds
  read-Keeps b word = elim (Bool-cases (is_empty c)) [
    | inl e ↦ rw e Keeps-self
    | inr e ↦ elim (Bool-cases (ltb b.length (2 ^ 31))) [
      | inl small ↦
          let short = clip_small b (ground (arith, small)) in
          let moved = head_after_lem v (clip c b).length short in
          rw e (
            Holds-each (λ (r : ℕ × Buffer × Cache). Keeps c r.2)
              (copy_out c (clip c b) >>= λ d. some (
                (clip c b).length,
                record (clip c b) { bytes = d },
                record c { head = head_after c (clip c b).length },
              ))
              (λ r q.
                let (d, q1, q2) = >>=-eq-some (copy_out c (clip c b)) _ q in
                subst (λ (r : ℕ × Buffer × Cache). Keeps c r.2) (some-injective _ _ q2)
                  (record {
                    valid = record {
                      storage = v.storage;
                      small = v.small;
                      head_in = ground (arith, moved, v.head_in, short, held-le-capacity v);
                      tail_in = v.tail_in;
                      started = ground (arith, moved, v.started, short, e);
                    };
                    capacity = refl;
                  })))
      | inr large ↦ rw (read_negative v b (ground arith) word e) tt
    ]
  ]

-- A new cache is valid, whether malloc finds memory or not.
pub new_cache-IsValid_any : (malloc : ℕ → Bool) (n : ℕ) → n < 2 ^ 31 → IsValid (new_cache malloc n)
unfolding new_cache buffer_calloc
new_cache-IsValid_any malloc n small =
    let word : to_size n ≡ n = to_size_lem n small in
    elim (Bool-cases (malloc n)) [
      | inl e ↦
          rw (word, e)
            (record {
              storage = length-replicate n 0;
              small = small;
              head_in = omega arith;
              tail_in = omega arith;
              started = inl refl;
            })
      | inr e ↦
          rw (word, e)
            (record {
              storage = refl;
              small = omega arith;
              head_in = omega arith;
              tail_in = omega arith;
              started = inl refl;
            })
    ]
