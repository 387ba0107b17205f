-- ===== src/Monitor/Texts.antt =====
-- The texts of numbers that the display of RPC_server/ServerMonitor.cc shows.
use Prim.Native.Nat.add
use cpp_rpc.Prelude.{
  ℕ, suc, ◌+◌, ◌≡◌, refl, ap, ◌∙◌, Bool, true, false, Bool-cases, inl, inr, List, [], ◌∷◌, ◌++◌,
  length, length-append, take, ltb, ◌==◌, if◌then◌else◌, arith,
}
use cpp_rpc.Monitor.Display.{point_end, trim}

-- no point in a text
abbrev pub is_plain : List ℕ → Bool
is_plain [] = true
is_plain (c ∷ cs) = if c == 46 then false else is_plain cs

point_end_plain : (i last : ℕ) (cs : List ℕ) → is_plain cs ≡ true → point_end i last cs ≡ last
unfolding point_end
point_end_plain i last [] h = refl
point_end_plain i last (c ∷ cs) h = elim (Bool-cases (c == 46)) [
  | inl e ↦ absurd (ground arith)
  | inr e ↦ rw e (point_end_plain (suc i) last cs (ground arith))
]

point_end-append :
    (i last : ℕ) (a b : List ℕ)
    → is_plain a ≡ true
    → point_end i last (a ++ b) ≡ point_end (length a + i) last b
unfolding point_end
point_end-append i last [] b h = ap (λ j. point_end j last b) (omega arith)
point_end-append i last (c ∷ a) b h = elim (Bool-cases (c == 46)) [
  | inl e ↦ absurd (ground arith)
  | inr e ↦
      rw (e, point_end)
        (point_end-append (suc i) last a b (ground arith)
          ∙ ap (λ j. point_end j last b) (omega arith))
]

take_two :
    (a : List ℕ) (c d : ℕ) (b : List ℕ) → take (length a + 2) (a ++ c ∷ d ∷ b) ≡ a ++ c ∷ d ∷ []
take_two [] c d b = refl
take_two (x ∷ a) c d b = rw add.suc (ap (◌∷◌ x) (take_two a c d b))

-- to_string cuts the text of a number behind the first digit that follows the point.
pub trim_lem :
    (a b : List ℕ) (d : ℕ)
    → is_plain a ≡ true
    → is_plain (d ∷ b) ≡ true
    → trim (a ++ 46 ∷ d ∷ b) ≡ a ++ 46 ∷ d ∷ []
unfolding trim point_end
trim_lem a b d h k =
    let n = a ++ 46 ∷ d ∷ b in
    let last : point_end 0 (length n) n ≡ length a + 2 =
      point_end-append 0 (length n) a (46 ∷ d ∷ b) h
      ∙ point_end_plain (suc (length a + 0)) (length a + 0 + 2) (d ∷ b) k
      ∙ omega arith in
    let inside : ltb (length n) (length a + 2) ≡ false =
      ground (arith, length-append a (46 ∷ d ∷ b)) in
    rw (last, inside) (take_two a 46 d b)
