-- ===== src/Drain/Tests.antt =====
-- A read cache with two whole packages and a part of a third, and the loop of `read_socket` on it.
use cpp_rpc.Prelude.{ℕ, ◌≡◌, refl, inl, some, Option, List, [], ◌∷◌, arith, Bool, true, slice}
use cpp_rpc.Buffer.{Buffer, empty_buffer}
use cpp_rpc.Buffer.Laws.{IsSized}
use cpp_rpc.Cache.{Cache}
use cpp_rpc.Cache.Inv.{IsValid}
use cpp_rpc.Cache.Fifo.{contents, window}
use cpp_rpc.Package.Layout.{Header, header_bytes, int_bytes}
use cpp_rpc.Drain.{drain}
use cpp_rpc.Drain.Packages.{drain_packages, frames, handle_all}

abbrev plenty : ℕ → Bool
plenty n = true

abbrev collect : List ℕ → List (List ℕ) → Option (List (List ℕ))
collect p s = some (p ∷ s)

abbrev stream : List ℕ
stream =
    0xd5 ∷ 0xc4 ∷ 0xb3 ∷ 0xa2 ∷ 1 ∷ 0 ∷ 0 ∷ 0 ∷ 7 ∷ 0xd5 ∷ 0xc4 ∷ 0xb3 ∷ 0xa2 ∷ 2 ∷ 0 ∷ 0 ∷ 0 ∷ 8
    ∷ 9 ∷ 0xd5 ∷ []

abbrev ring : Cache
ring = record { buffer = record { capacity = 20; length = 0; bytes = stream }; head = 0; tail = 20 }

ring-IsValid : IsValid ring
ring-IsValid = record {
  storage = refl;
  small = omega arith;
  head_in = omega arith;
  tail_in = omega arith;
  started = inl refl;
}

abbrev no_header : Header
no_header = record { magic = 0; length = 0 }

drain_packages_example :
    (c : Cache) × (b : Buffer) × (drain plenty collect 3 ring no_header empty_buffer []
      ≡ some (c, b, (8 ∷ 9 ∷ []) ∷ (7 ∷ []) ∷ []))
    × (contents c ≡ 0xd5 ∷ [])
    × IsValid c
    × IsSized b
unfolding contents window slice frames handle_all header_bytes int_bytes
drain_packages_example =
    drain_packages plenty (λ n. refl) collect ((7 ∷ []) ∷ (8 ∷ 9 ∷ []) ∷ []) (0xd5 ∷ []) 3 no_header
      empty_buffer [] ((8 ∷ 9 ∷ []) ∷ (7 ∷ []) ∷ []) ring-IsValid (omega arith) refl
      (inl (omega arith)) (omega arith) refl
