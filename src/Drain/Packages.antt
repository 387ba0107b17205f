-- ===== src/Drain/Packages.antt =====
-- What the loop over `read_package` of both `read_socket`s does with a stream of packages.
use cpp_rpc.Prelude.{
  ℕ, zero, suc, ◌+◌, ◌*◌, ◌<◌, ◌≡◌, ◌^◌, sym, ap, ◌∙◌, ◌⊎◌, inl, inr, Bool, true, false, Option,
  some, List, [], ◌∷◌, ◌++◌, ◌>>=◌, >>=-eq-some, append_assoc, arith, length, length-append,
}
use mathlib.Core.Option.{some-injective}
use cpp_rpc.Buffer.{Buffer}
use cpp_rpc.Buffer.Laws.{IsSized}
use cpp_rpc.Cache.{Cache}
use cpp_rpc.Cache.Inv.{IsValid}
use cpp_rpc.Cache.Fifo.{contents}
use cpp_rpc.Package.{read_package, header_of}
use cpp_rpc.Package.Layout.{Header, header_bytes, length-header_bytes}
use cpp_rpc.Package.Write.{frame}
use cpp_rpc.Package.Read.{read_package_refines, read_package_nothing, read_package_waits}
use cpp_rpc.Drain.{payload, drain}

-- payloads as they go over the wire, one after the other
unfoldable pub frames : List (List ℕ) → List ℕ
frames [] = []
frames (p ∷ ps) = frame p ++ frames ps

-- the handler applied to each payload in turn
unfoldable pub handle_all : {S : Type 0} → (List ℕ → S → Option S) → List (List ℕ) → S → Option S
handle_all handle [] s = some s
handle_all handle (p ∷ ps) s = handle p s >>= λ s'. handle_all handle ps s'

-- What is left of a stream: fewer bytes than a header has, or a package that is not all there.
abbrev pub IsUnfinished : List ℕ → Type 0
IsUnfinished xs =
    (length xs < 8)
    ⊎ ((p ys : List ℕ) × (length p < 2 ^ 31) × (frame p ≡ xs ++ ys) × (0 < length ys))

pub length-frame : (p : List ℕ) → length (frame p) ≡ 8 + length p
length-frame p = omega (
  arith,
  length-append (header_bytes (header_of (length p))) p,
  length-header_bytes (header_of (length p)),
)

-- `read_package` finds nothing in what is left.
unfinished_waits :
    (malloc : ℕ → Bool) {c : Cache} (v : IsValid c) (head : Header) (b : Buffer) (rest : List ℕ)
    → contents c ≡ rest
    → IsUnfinished rest
    → (h : Header) × (read_package malloc c head b ≡ some (false, h, b, c))
unfinished_waits malloc v head b rest e (inl few) =
    (head, read_package_nothing malloc v head b (rw e few))
unfinished_waits malloc v head b rest e (inr (p, ys, short, split, more)) =
    read_package_waits malloc v head b p rest ys short split more e

module _ (malloc : ℕ → Bool) (got : (n : ℕ) → malloc n ≡ true) {S : Type 0}
    (handle : List ℕ → S → Option S) where
  -- The loop hands every whole package in the cache to the handler, in the order of the stream, and
  -- stops with the unfinished rest in the cache, for the next call to complete; one round for every
  -- eight bytes is enough.
  pub drain_packages :
      (ps : List (List ℕ)) (rest : List ℕ) (fuel : ℕ) {c : Cache} (head : Header) (b : Buffer)
      (s s' : S)
      → IsValid c
      → IsSized b
      → contents c ≡ frames ps ++ rest
      → IsUnfinished rest
      → length (contents c) < 8 * fuel
      → handle_all handle ps s ≡ some s'
      → (c' : Cache) × (b' : Buffer) × (drain malloc handle fuel c head b s ≡ some (c', b', s'))
        × (contents c' ≡ rest)
        × IsValid c'
        × IsSized b'
  unfolding drain frames handle_all
  drain_packages ps rest zero head b s s' v z e u f h = absurd (omega arith)
  drain_packages [] rest (suc fuel) {c} head b s s' v z e u f h =
      let (h', r) = unfinished_waits malloc v head b rest e u in
      (c, b, rw (r, ◌>>=◌) (ap (λ t. some (c, b, t)) (some-injective s s' h)), e, v, z)
  drain_packages (p ∷ ps) rest (suc fuel) {c} head b s s' v z e u f h =
      let (b1, c1, r, l, eq, z1, e1, v1) =
        read_package_refines malloc v head b p (frames ps ++ rest)
          (e ∙ append_assoc (frame p) (frames ps) rest) (got (length p)) z in
      let (t, hp, hps) = >>=-eq-some (handle p s) (handle_all handle ps) h in
      let seen : payload b1 ≡ p = rw l eq in
      let total : length (contents c) ≡ length (frame p) + length (contents c1) =
        ap length (e ∙ append_assoc (frame p) (frames ps) rest)
        ∙ length-append (frame p) (frames ps ++ rest)
        ∙ ap (λ n. length (frame p) + n) (ap length (sym e1)) in
      let (c2, b2, r2, e2, v2, z2) =
        drain_packages ps rest fuel (header_of (length p)) b1 t s' v1 z1 e1 u
          (omega (arith, total, length-frame p)) hps in
      (c2, b2, rw (r, ◌>>=◌, seen, hp, ◌>>=◌) r2, e2, v2, z2)
