-- ===== src/Drain/Keeps.antt =====
-- What the handler keeps, the loop over `read_package` of both `read_socket`s keeps.
use cpp_rpc.Prelude.{
  ℕ, zero, suc, inl, inr, Bool, true, false, Option, Option-cases, List, ◌>>=◌, Holds, Holds-bind,
  Holds_some, Bool-cases, Holds-then, Holds-map, ◌≡◌, some,
}
use cpp_rpc.Buffer.{Buffer}
use cpp_rpc.Cache.{Cache}
use cpp_rpc.Cache.Inv.{IsValid}
use cpp_rpc.Cache.Keeps.{Keeps, Keeps-then}
use cpp_rpc.Package.{read_package}
use cpp_rpc.Package.Keeps.{read_package-Keeps}
use cpp_rpc.Package.Layout.{Header}
use cpp_rpc.Drain.{payload, drain}

module _ (malloc : ℕ → Bool) {S : Type 0} (handle : List ℕ → S → Option S) (P : S → Type 0)
    (keeps : (bytes : List ℕ) (s : S) → P s → Holds P (handle bytes s)) where
  pub drain_keeps :
      (fuel : ℕ) (c : Cache) (head : Header) (b : Buffer) (s : S)
      → P s
      → Holds (λ r. P r.2) (drain malloc handle fuel c head b s)
  unfolding drain Holds
  drain_keeps zero c head b s p = tt
  drain_keeps (suc fuel) c head b s p = elim (Option-cases (read_package malloc c head b)) [
    | inl e ↦ rw (e, ◌>>=◌) tt
    | inr ((true, h, b', c'), e) ↦
        rw (e, ◌>>=◌)
          (Holds-bind P (λ r. P r.2) (handle (payload b') s) _ (keeps (payload b') s p)
            (λ s' q p'. drain_keeps fuel c' h b' s' p'))
    | inr ((false, h, b', c'), e) ↦ rw (e, ◌>>=◌) p
  ]

-- The cache stays valid, whatever the handler does and whatever the bytes are.
module _ (malloc : ℕ → Bool) {S : Type 0} (handle : List ℕ → S → Option S) where
  pub drain-Keeps :
      (fuel : ℕ) {c : Cache} (head : Header) (b : Buffer) (s : S)
      → IsValid c
      → Holds (λ r. Keeps c r.0) (drain malloc handle fuel c head b s)
  unfolding drain Holds
  drain-Keeps zero head b s v = tt
  drain-Keeps (suc fuel) {c} head b s v = elim (Option-cases (read_package malloc c head b)) [
    | inl e ↦ rw (e, ◌>>=◌) tt
    | inr ((found, h, b', c'), e) ↦
        let k : Keeps c c' =
          Holds_some (λ r. Keeps c r.3) (read_package malloc c head b) (found, h, b', c') e
            (read_package-Keeps v malloc head b) in
        rw (e, ◌>>=◌)
          (elim (Bool-cases found) [
            | inl t ↦ rw t (
                Holds-then (λ r. Keeps c r.0) (handle (payload b') s) _
                  (λ s' q.
                    Holds-map (drain malloc handle fuel c' h b' s') (λ r l. Keeps-then k l)
                      (drain-Keeps fuel h b' s' k.valid)))
            | inr f ↦ rw f k
          ])
  ]

  -- the loop leaves a cache of the same size
  pub drain_capacity :
      (fuel : ℕ) {c c' : Cache} (head : Header) (b b' : Buffer) (s s' : S)
      → IsValid c
      → drain malloc handle fuel c head b s ≡ some (c', b', s')
      → c'.buffer.capacity ≡ c.buffer.capacity
  drain_capacity fuel {c} {c'} head b b' s s' v e =
      let k : Keeps c c' =
        Holds_some (λ r. Keeps c r.0) (drain malloc handle fuel c head b s) (c', b', s') e
          (drain-Keeps fuel head b s v) in
      k.capacity
