-- ===== src/Prelude/Faults.antt =====
-- Properties of what an operation gives, if it is no fault.
use mathlib.Core.Path.{◌≡◌, refl, subst}
use mathlib.Core.Option.{Option, none, some}
use cpp_rpc.Prelude.Tests.{◌>>=◌}

module _ {S : Type 0} where
  unfoldable pub Holds : (S → Type 0) → Option S → Type 0
  Holds P none = Unit {0}
  Holds P (some s) = P s

  pub Holds_some : (P : S → Type 0) (m : Option S) (s : S) → m ≡ some s → Holds P m → P s
  unfolding Holds
  Holds_some P m s e h = subst (Holds P) e h

  pub Holds-each : (P : S → Type 0) (m : Option S) → ((s : S) → m ≡ some s → P s) → Holds P m
  unfolding Holds
  Holds-each P none g = tt
  Holds-each P (some s) g = g s refl

module _ {A B : Type 0} (P : A → Type 0) (Q : B → Type 0) where
  pub Holds-bind :
      (m : Option A) (f : A → Option B)
      → Holds P m
      → ((a : A) → m ≡ some a → P a → Holds Q (f a))
      → Holds Q (m >>= f)
  unfolding Holds
  Holds-bind none f h g = tt
  Holds-bind (some a) f h g = g a refl h

module _ {A B : Type 0} (Q : B → Type 0) where
  pub Holds-then :
      (m : Option A) (f : A → Option B) → ((a : A) → m ≡ some a → Holds Q (f a)) → Holds Q (m >>= f)
  unfolding Holds
  Holds-then none f g = tt
  Holds-then (some a) f g = g a refl

-- what is kept may be weakened
pub Holds-map :
    {S : Type 0} {P Q : S → Type 0} (m : Option S) → ((s : S) → P s → Q s) → Holds P m → Holds Q m
unfolding Holds
Holds-map none f h = tt
Holds-map (some s) f h = f s h
