-- ===== src/Monitor/Peaks.antt =====
-- The largest speeds that the display of RPC_server/ServerMonitor.cc shows.
use cpp_rpc.Prelude.{
  ℕ, ◌≤◌, ◌<◌, ◌&&◌, ◌≡◌, Bool, true, false, List, [], ◌∷◌, map, ltb, leb, if◌then◌else◌,
}
use cpp_rpc.Monitor.{Monitor}
use cpp_rpc.Monitor.Display.{sub_long, Watch, Report, monite_round, monite}

-- the samples until `m_exit` is found set
abbrev pub alive : List (Bool × Monitor) → List Monitor
alive [] = []
alive ((exit, m) ∷ more) = if exit then [] else m ∷ alive more

abbrev pub differences : ℕ → List ℕ → List ℕ
differences last [] = []
differences last (x ∷ xs) = sub_long x last ∷ differences x xs

abbrev pub highest : ℕ → List ℕ → ℕ
highest n [] = n
highest n (x ∷ xs) = highest (if leb n x then x else n) xs

-- every number is below a bound
abbrev pub all_below : ℕ → List ℕ → Bool
all_below n [] = true
all_below n (x ∷ xs) = ltb x n && all_below n xs

-- A speed is the `double` of a counter's difference over the timeout. Of those of differences below
-- `counts` the test against a whole number below `speeds` agrees with the conversion to `long long`, and
-- the conversion gives a number below `speeds`.
module _ {Double : Type 0} (rate : ℕ → ℕ → Double) (greater : Double → ℕ → Bool)
    (to_long : Double → ℕ) (timeout counts speeds : ℕ)
    (above : (d n : ℕ)
      → d < counts
      → n < speeds
      → greater (rate d timeout) n ≡ true
      → n ≤ to_long (rate d timeout))
    (within : (d n : ℕ)
      → d < counts
      → n < speeds
      → greater (rate d timeout) n ≡ false
      → to_long (rate d timeout) ≤ n)
    (small : (d : ℕ) → d < counts → to_long (rate d timeout) < speeds) where
  -- the largest of a number and of the speeds of a counter, whose values are `xs`
  abbrev pub top : ℕ → List ℕ → ℕ → ℕ
  top last xs start = highest start (map (λ d. to_long (rate d timeout)) (differences last xs))

  -- what a counter `last` and its values `xs` have to fulfil for the display, and its largest speed `n`
  abbrev pub fits : ℕ → List ℕ → ℕ → Bool
  fits last xs n = all_below counts (differences last xs) && ltb n speeds

  module _ {Float : Type 0} (std_to_string : Float → List ℕ) (of_long : ℕ → Float)
      (below : Float → Bool) (shrink : Float → Float) (narrow : Double → Float) where
    abbrev pub watched : List (Bool × Monitor) → Watch → List Report × Watch
    watched = monite rate greater to_long std_to_string of_long below shrink narrow timeout

    -- what the display shows as the largest speeds, after the samples `ms`
    pub record Tops (ms : List Monitor) (w w' : Watch) : Type 0 where
      pub data_in :
          w'.max_recv_data_speed.value
          ≡ top w.last_recv_bytes (map (λ m. m.recv_bytes) ms) w.max_recv_data_speed.value
      pub data_out :
          w'.max_send_data_speed.value
          ≡ top w.last_send_bytes (map (λ m. m.send_bytes) ms) w.max_send_data_speed.value
      pub requests :
          w'.max_recv_req_speed.value
          ≡ top w.last_recv_requests (map (λ m. m.recv_requests) ms) w.max_recv_req_speed.value
      pub responses :
          w'.max_send_res_speed.value
          ≡ top w.last_send_responses (map (λ m. m.send_responses) ms) w.max_send_res_speed.value

    -- the differences of the counters and the largest speeds so far are small enough
    pub record Fitting (ms : List Monitor) (w : Watch) : Type 0 where
      pub data_in :
          fits w.last_recv_bytes (map (λ m. m.recv_bytes) ms) w.max_recv_data_speed.value ≡ true
      pub data_out :
          fits w.last_send_bytes (map (λ m. m.send_bytes) ms) w.max_send_data_speed.value ≡ true
      pub requests :
          fits w.last_recv_requests (map (λ m. m.recv_requests) ms) w.max_recv_req_speed.value
          ≡ true
      pub responses :
          fits w.last_send_responses (map (λ m. m.send_responses) ms) w.max_send_res_speed.value
          ≡ true

    abbrev next : Monitor → Watch → Watch
    next m w =
        (monite_round rate greater to_long std_to_string of_long below shrink narrow timeout m w).1
