-- ===== src/Server/Rings.antt =====
-- The two rings of every connection of the server, and what changes them in the heap.
use cpp_rpc.Prelude.{
  ℕ, zero, suc, ◌<◌, ◌≡◌, ◌^◌, sym, ap, ◌∙◌, ◌⊎◌, inl, inr, Option, some, List, [], ◌∷◌, ◌++◌,
  get_elem?, set,
}
use mathlib.Core.Path.{subst}
use mathlib.Core.Option.{some-injective}
use cpp_rpc.Assoc.{string_key}
use cpp_rpc.Cache.Inv.{IsValid}
use cpp_rpc.Server.{RequestHandle, Server, object, store}
use cpp_rpc.Server.Counts.{object-heap}

get_elem?-set_cases :
    (xs : List (Option RequestHandle)) (i j : ℕ) (v : Option RequestHandle) (w : RequestHandle)
    → get_elem? (set xs i v) j ≡ some (some w)
    → (v ≡ some w) ⊎ (get_elem? xs j ≡ some (some w))
get_elem?-set_cases [] i j v w e = inr e
get_elem?-set_cases (x ∷ xs) zero zero v w e = inl (some-injective _ _ e)
get_elem?-set_cases (x ∷ xs) zero (suc j) v w e = inr e
get_elem?-set_cases (x ∷ xs) (suc i) zero v w e = inr e
get_elem?-set_cases (x ∷ xs) (suc i) (suc j) v w e = get_elem?-set_cases xs i j v w e

pub get_elem?-append_cases :
    (xs : List (Option RequestHandle)) (j : ℕ) (v : Option RequestHandle) (w : RequestHandle)
    → get_elem? (xs ++ v ∷ []) j ≡ some (some w)
    → (v ≡ some w) ⊎ (get_elem? xs j ≡ some (some w))
get_elem?-append_cases [] zero v w e = inl (some-injective _ _ e)
get_elem?-append_cases [] (suc j) v w e = absurd cc
get_elem?-append_cases (x ∷ xs) zero v w e = inr e
get_elem?-append_cases (x ∷ xs) (suc j) v w e = get_elem?-append_cases xs j v w e

-- both rings of a connection are in order
pub record IsSound (x : RequestHandle) : Type 0 where
  pub reads : IsValid x.read_cache
  pub writes : IsValid x.write_cache

module _ {K : Type 0} where
  -- the rings of all the objects that live, and room for those of a new one
  pub record HasRings (s : Server K) : Type 0 where
    pub small : s.cache_size < 2 ^ 31
    pub sound : (h : ℕ) (x : RequestHandle) → get_elem? s.heap h ≡ some (some x) → IsSound x

  pub HasRings-same :
      {s s' : Server K} → HasRings s → s'.heap ≡ s.heap → s'.cache_size ≡ s.cache_size → HasRings s'
  HasRings-same c h z = record {
    small = subst (λ n. n < 2 ^ 31) (sym z) c.small;
    sound = λ i x e. c.sound i x (ap (λ hs. get_elem? hs i) (sym h) ∙ e);
  }

  pub HasRings-store :
      {s : Server K} (h : ℕ) (o : Option RequestHandle)
      → HasRings s
      → ((x : RequestHandle) → o ≡ some x → IsSound x)
      → HasRings (store h o s)
  unfolding store
  HasRings-store {s} h o c sound = record {
    small = c.small;
    sound = λ i x e. elim (get_elem?-set_cases s.heap h i o x e) [
      | inl new ↦ sound x new
      | inr old ↦ c.sound i x old
    ];
  }

  -- the object at `h` with its rings replaced
  pub HasRings-put :
      {s : Server K} (h : ℕ) (y : RequestHandle)
      → HasRings s
      → IsSound y
      → HasRings (store h (some y) s)
  HasRings-put h y c sound =
      HasRings-store h (some y) c (λ x e. subst IsSound (some-injective y x e) sound)

  pub object-IsSound :
      (h : ℕ) (s : Server K) (x : RequestHandle) → HasRings s → object h s ≡ some x → IsSound x
  object-IsSound h s x c e = c.sound h x (object-heap h s x e)
