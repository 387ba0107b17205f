-- ===== src/Send/Keeps.antt =====
-- What the accounting of a number of bytes keeps, the loop of both `write_socket`s keeps.
use cpp_rpc.Prelude.{
  ℕ, Bool-cases, inl, inr, List, [], ◌∷◌, ◌++◌, ◌==◌, ltb, Holds, Holds-bind, Holds-each,
  Holds-then, Holds-map, arith,
}
use cpp_rpc.Int32.{of_size}
use cpp_rpc.Cache.Inv.{IsValid}
use cpp_rpc.Cache.Keeps.{Keeps, Keeps-self, Keeps-then, read-Keeps}
use cpp_rpc.Cache.{have_a_look, read}
use cpp_rpc.Send.{Answer, Sending, written, accepted, block_size, take_sent, send_round, send}

module _ {S : Type 0} (account : ℕ → S → S) (P : S → Type 0)
    (keeps : (n : ℕ) (s : S) → P s → P (account n s)) where
  take_sent_keeps :
      (len : ℕ) (w : Sending S) → P w.state → Holds (λ w'. P w'.state) (take_sent account len w)
  unfolding take_sent Holds
  take_sent_keeps len w p = elim (Bool-cases (ltb 0 len)) [
    | inl e ↦ rw e (
        Holds-bind (λ r. Unit {0}) (λ w'. P w'.state)
          (read w.cache (record (w.tmp) { length = of_size len })) _ (Holds-each _ _ (λ r q. tt))
          (λ r q u. keeps (of_size len) w.state p))
    | inr e ↦ rw e p
  ]

  send_round_keeps :
      (a : Answer) (w : Sending S) → P w.state → Holds (λ r. P r.1.state) (send_round account a w)
  unfolding send_round Holds
  send_round_keeps a w p =
      Holds-bind (λ r. Unit {0}) (λ r. P r.1.state)
        (have_a_look w.cache (record (w.tmp) { length = block_size })) _
        (Holds-each _ _ (λ r q. tt))
        (λ r q u.
          Holds-bind (λ w'. P w'.state) (λ r. P r.1.state)
            (take_sent account (written a r.1.length)
              (record w { tmp = r.1; sent = w.sent ++ accepted a r.1 }))
            _
            (take_sent_keeps (written a r.1.length)
              (record w { tmp = r.1; sent = w.sent ++ accepted a r.1 }) p)
            (λ w' q' p'. p'))

  pub send_keeps :
      (answers : List Answer) (w : Sending S)
      → P w.state
      → Holds (λ w'. P w'.state) (send account answers w)
  unfolding send Holds
  send_keeps [] w p = tt
  send_keeps (a ∷ more) w p =
      Holds-bind (λ r. P r.1.state) (λ w'. P w'.state) (send_round account a w) _
        (send_round_keeps a w p)
        (λ r q p'. elim (Bool-cases (r.0 == block_size)) [
          | inl e ↦ rw e (send_keeps more r.1 p')
          | inr e ↦ rw e p'
        ])

-- The cache stays valid, whatever the kernel answers.
module _ {S : Type 0} (account : ℕ → S → S) where
  take_sent-Keeps :
      (len : ℕ) (w : Sending S)
      → IsValid w.cache
      → Holds (λ w'. Keeps w.cache w'.cache) (take_sent account len w)
  unfolding take_sent Holds
  take_sent-Keeps len w v = elim (Bool-cases (ltb 0 len)) [
    | inl e ↦ rw e (
        Holds-bind (λ r. Keeps w.cache r.2) (λ w'. Keeps w.cache w'.cache)
          (read w.cache (record (w.tmp) { length = of_size len })) _
          (read-Keeps v (record (w.tmp) { length = of_size len }) (omega arith)) (λ r q k. k))
    | inr e ↦ rw e (Keeps-self v)
  ]

  send_round-Keeps :
      (a : Answer) (w : Sending S)
      → IsValid w.cache
      → Holds (λ r. Keeps w.cache r.1.cache) (send_round account a w)
  unfolding send_round Holds
  send_round-Keeps a w v =
      Holds-then (λ r. Keeps w.cache r.1.cache)
        (have_a_look w.cache (record (w.tmp) { length = block_size })) _
        (λ r q.
          let w1 = record w { tmp = r.1; sent = w.sent ++ accepted a r.1 } in
          Holds-bind (λ w'. Keeps w.cache w'.cache) (λ r. Keeps w.cache r.1.cache)
            (take_sent account (written a r.1.length) w1) _
            (take_sent-Keeps (written a r.1.length) w1 v) (λ w' q' k. k))

  pub send-Keeps :
      (answers : List Answer) (w : Sending S)
      → IsValid w.cache
      → Holds (λ w'. Keeps w.cache w'.cache) (send account answers w)
  unfolding send Holds
  send-Keeps [] w v = tt
  send-Keeps (a ∷ more) w v =
      Holds-bind (λ r. Keeps w.cache r.1.cache) (λ w'. Keeps w.cache w'.cache)
        (send_round account a w) _ (send_round-Keeps a w v)
        (λ r q k. elim (Bool-cases (r.0 == block_size)) [
          | inl e ↦ rw e (
              Holds-map (send account more r.1) (λ w' l. Keeps-then k l)
                (send-Keeps more r.1 k.valid))
          | inr e ↦ rw e k
        ])
