-- ===== src/Send/Stream.antt =====
-- What the loop of both `write_socket`s puts into the socket.
use cpp_rpc.Prelude.{
  ℕ, ◌+◌, ◌-◌, ◌*◌, ◌≤◌, ◌<◌, ◌≡◌, ◌^◌, refl, sym, ap, ◌∙◌, inl, inr, true, min, none, some, List,
  [], ◌∷◌, ◌++◌, ◌>>=◌, append_assoc, append_inj, arith, length, length-append, slice, splice,
  slice-splice_at, slice-slice, length-splice, length-slice, split_at, Bool-cases, ◌==◌, ltb,
}
use cpp_rpc.Int32.{of_size}
use cpp_rpc.Buffer.{Buffer}
use cpp_rpc.Cache.{have_a_look}
use cpp_rpc.Cache.Inv.{IsValid}
use cpp_rpc.Cache.Fifo.{contents}
use cpp_rpc.Cache.Read.{read_refines, have_a_look_refines, is_empty_of_contents}
use cpp_rpc.Cache.Negative.{read_negative}
use cpp_rpc.Send.{
  Answer, accepts, fails, block_size, written, accepted, Sending, take_sent, send_round, send,
}

-- The answers are of a socket that works: none of them is a failure.
abbrev pub AllAccept : List Answer → Type 0
AllAccept [] = Unit {0}
AllAccept (accepts k ∷ more) = AllAccept more
AllAccept (fails ∷ more) = ⊥

module _ {S : Type 0} where
  -- the cache is in order, and the block is as long as it was made
  pub record IsReady (w : Sending S) : Type 0 where
    pub valid : IsValid w.cache
    pub block : length w.tmp.bytes ≡ block_size

  -- what a round leaves, if it sent `xs`
  pub record Sent (w w' : Sending S) (xs : List ℕ) : Type 0 where
    pub ready : IsReady w'
    pub out : w'.sent ≡ w.sent ++ xs
    pub rest : contents w.cache ≡ xs ++ contents w'.cache

module _ {S : Type 0} (account : ℕ → S → S) where
  take_sent_none : (w : Sending S) → take_sent account 0 w ≡ some w
  unfolding take_sent
  take_sent_none w = refl

  -- `xs` and `ys` are what the block shows, and `xs` is what was accepted.
  take_sent_lem :
      (w : Sending S) (xs ys : List ℕ)
      → IsReady w
      → length xs ≤ block_size
      → contents w.cache ≡ xs ++ ys
      → (w' : Sending S) × (take_sent account (length xs) w ≡ some w')
        × IsReady w'
        × (w'.sent ≡ w.sent)
        × (contents w'.cache ≡ ys)
  unfolding take_sent
  take_sent_lem w [] ys r k e = (w, refl, r, refl, e)
  take_sent_lem w (x ∷ xs) ys r k e =
      let n = length (x ∷ xs) in
      let total : length (contents w.cache) ≡ n + length ys =
        ap length e ∙ length-append (x ∷ xs) ys in
      let positive : ltb 0 n ≡ true = ground arith in
      let small : of_size n ≡ n = omega arith in
      let b : Buffer = record (w.tmp) { length = of_size n } in
      let (out, c', q, l, s, v', same) =
        read_refines r.valid b (omega arith) (omega (arith, r.block)) in
      let eq = append_inj out (x ∷ xs) (omega arith) (sym s ∙ e) in
      (
        record w {
          tmp = record b { length = length out; bytes = splice b.bytes 0 out };
          cache = c';
          state = account (of_size n) w.state;
        },
        rw (positive, q, ◌>>=◌),
        record {
          valid = v';
          block = length-splice b.bytes 0 out (omega (arith, r.block)) ∙ r.block;
        },
        refl,
        eq.1,
      )

  send_round_steps :
      (a : Answer) (w w' : Sending S) (k : ℕ) (tmp : Buffer) (n : ℕ)
      → have_a_look w.cache (record (w.tmp) { length = block_size }) ≡ some (k, tmp)
      → written a tmp.length ≡ n
      → take_sent account n (record w { tmp = tmp; sent = w.sent ++ accepted a tmp }) ≡ some w'
      → send_round account a w ≡ some (n, w')
  unfolding send_round
  send_round_steps a w w' k tmp n q c e = rw (q, ◌>>=◌, c, e, ◌>>=◌)

  -- A round with an answer other than a failure sends the front of the queue, as much as the socket
  -- accepts of a block, and takes exactly that off the cache.
  pub send_round_lem :
      (k : ℕ) (w : Sending S)
      → IsReady w
      → (xs : List ℕ) × (w' : Sending S) × (send_round account (accepts k) w ≡ some (length xs, w'))
        × Sent w w' xs
        × (length xs ≡ min k (min block_size (length (contents w.cache))))
  unfolding send_round written accepted
  send_round_lem k w r =
      let asked : Buffer = record (w.tmp) { length = block_size } in
      let (out, rest, q, l, s) =
        have_a_look_refines r.valid asked (omega arith) (omega (arith, r.block)) in
      let n = min k (length out) in
      let tmp : Buffer = record asked { length = length out; bytes = splice w.tmp.bytes 0 out } in
      let xs = slice tmp.bytes 0 n in
      let room : length out ≤ length w.tmp.bytes = omega (arith, r.block) in
      let full : length tmp.bytes ≡ block_size =
        length-splice w.tmp.bytes 0 out (omega (arith, room)) ∙ r.block in
      let shown : slice tmp.bytes 0 (length out) ≡ out =
        slice-splice_at w.tmp.bytes 0 out (length out) (omega arith) refl in
      let front : xs ≡ slice out 0 n =
        sym (slice-slice tmp.bytes (length out) 0 n (omega arith))
        ∙ ap (λ zs. slice zs 0 n) shown in
      let count : length xs ≡ n = length-slice tmp.bytes 0 n (omega (arith, full)) in
      let cut : contents w.cache ≡ xs ++ (slice out n (length out - n) ++ rest) =
        s
        ∙ ap (λ zs. zs ++ rest)
            (split_at out n (omega arith)
              ∙ ap (λ zs. zs ++ slice out n (length out - n)) (sym front))
        ∙ append_assoc xs (slice out n (length out - n)) rest in
      let w1 : Sending S = record w { tmp = tmp; sent = w.sent ++ xs } in
      let (w2, e, r2, same, c) =
        take_sent_lem w1 xs (slice out n (length out - n) ++ rest)
          (record { valid = r.valid; block = full }) (omega (arith, count, l)) cut in
      (
        xs,
        w2,
        send_round_steps (accepts k) w w2 (length out) tmp (length xs) q (sym count) e,
        record { ready = r2; out = same; rest = cut ∙ ap (λ zs. xs ++ zs) (sym c) },
        count ∙ ap (λ m. min k m) l,
      )

  -- Where the socket does not fail, `write_socket` ends, one round for every block and one more at
  -- the most; what it puts into the socket is the front of the write cache, in order, and the cache
  -- keeps the rest: no byte is lost, repeated or reordered, however the socket cuts the blocks.
  pub send_stream :
      (answers : List Answer) (w : Sending S)
      → IsReady w
      → AllAccept answers
      → length (contents w.cache) < block_size * length answers
      → (xs : List ℕ) × (w' : Sending S) × (send account answers w ≡ some w')
        × (w'.sent ≡ w.sent ++ xs)
        × (contents w.cache ≡ xs ++ contents w'.cache)
        × IsValid w'.cache
  unfolding send
  send_stream [] w r a h = absurd (omega arith)
  send_stream (fails ∷ more) w r a h = absurd a
  send_stream (accepts k ∷ more) w r a h =
      let (xs, w1, e, t, l) = send_round_lem k w r in
      elim (Bool-cases (length xs == block_size)) [
        | inl all ↦
            let total : length (contents w.cache) ≡ length xs + length (contents w1.cache) =
              ap length t.rest ∙ length-append xs (contents w1.cache) in
            let (ys, w2, e2, o2, c2, v2) =
              send_stream more w1 t.ready a (ground (arith, total, all)) in
            (
              xs ++ ys,
              w2,
              rw (e, ◌>>=◌) (rw all e2),
              o2 ∙ ap (λ zs. zs ++ ys) t.out ∙ append_assoc w.sent xs ys,
              t.rest ∙ ap (λ zs. xs ++ zs) c2 ∙ sym (append_assoc xs ys (contents w2.cache)),
              v2,
            )
        | inr last ↦ (xs, w1, rw (e, ◌>>=◌) (rw last), t.out, t.rest, t.ready.valid)
      ]

  -- Where `write` fails while the write cache holds something, the -1 is taken for a number of bytes
  -- that were sent, and the copy of that many leaves the block: a fault.
  pub send_fails :
      (w : Sending S) (more : List Answer)
      → IsReady w
      → 0 < length (contents w.cache)
      → send account (fails ∷ more) w ≡ none
  unfolding send send_round take_sent written
  send_fails w more r h =
      let asked : Buffer = record (w.tmp) { length = block_size } in
      let (out, rest, q, l, s) =
        have_a_look_refines r.valid asked (omega arith) (omega (arith, r.block)) in
      let b : Buffer = record asked { length = 2 ^ 32 - 1; bytes = splice w.tmp.bytes 0 out } in
      let n =
        read_negative r.valid b (omega arith) (omega arith) (is_empty_of_contents r.valid h) in
      rw (q, ◌>>=◌, n, ◌>>=◌)
