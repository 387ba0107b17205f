-- ===== src/Send/Whole.antt =====
-- The loop of both `write_socket`s where the socket has room for all that the write cache holds.
use cpp_rpc.Prelude.{
  ℕ, ◌≤◌, ◌<◌, ◌≡◌, sym, ap, ◌∙◌, false, some, List, [], ◌∷◌, ◌++◌, ◌>>=◌, ◌==◌, append_inj,
  append-nil, arith, length, Holds_some,
}
use cpp_rpc.Cache.Fifo.{contents}
use cpp_rpc.Cache.Keeps.{Keeps}
use cpp_rpc.Send.{Answer, accepts, block_size, Sending, send}
use cpp_rpc.Send.Stream.{IsReady, send_round_lem}
use cpp_rpc.Send.Keeps.{send-Keeps}

module _ {S : Type 0} (account : ℕ → S → S) where
  -- Less than a block, and a socket that takes it all: one round sends it and ends the loop.
  pub send_whole :
      (k : ℕ) (more : List Answer) (w : Sending S)
      → IsReady w
      → length (contents w.cache) ≤ k
      → length (contents w.cache) < block_size
      → (w' : Sending S) × (send account (accepts k ∷ more) w ≡ some w')
        × (w'.sent ≡ w.sent ++ contents w.cache)
        × (contents w'.cache ≡ [])
        × Keeps w.cache w'.cache
  unfolding send
  send_whole k more w r all short =
      let (xs, w1, e, t, l) = send_round_lem account k w r in
      let size : length xs ≡ length (contents w.cache) = omega (arith, l) in
      let eq =
        append_inj (contents w.cache) xs (sym size) (append-nil (contents w.cache) ∙ t.rest) in
      let stops : (length xs == block_size) ≡ false = ground (arith, size) in
      let ends : send account (accepts k ∷ more) w ≡ some w1 = rw (e, ◌>>=◌) (rw stops) in
      (
        w1,
        ends,
        t.out ∙ ap (λ ys. w.sent ++ ys) (sym eq.0),
        sym eq.1,
        Holds_some (λ w'. Keeps w.cache w'.cache) (send account (accepts k ∷ more) w) w1 ends
            (send-Keeps account (accepts k ∷ more) w r.valid),
      )
