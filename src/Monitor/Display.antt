-- ===== src/Monitor/Display.antt =====
-- The display of RPC_server/ServerMonitor.cc. The arithmetic of `float` and `double`, std::to_string and what
-- printf writes are the language's: the first two are parameters, and of the third the arguments are kept.
-- A `long long` is a bit pattern of 64 bits.
use cpp_rpc.Prelude.{
  ℕ, suc, ◌+◌, ◌-◌, ◌*◌, ◌/◌, ◌%◌, ◌^◌, Bool, List, [], ◌∷◌, ◌++◌, length, take, ltb, ◌==◌,
  if◌then◌else◌,
}
use cpp_rpc.Monitor.{Monitor}
use cpp_rpc.Config.Text.{str}

-- the subtraction, and the division by a positive number that cuts towards zero
abbrev pub sub_long : ℕ → ℕ → ℕ
sub_long a b = (a + 2 ^ 64 - b) % 2 ^ 64

abbrev pub div_long : ℕ → ℕ → ℕ
div_long a b = if ltb a (2 ^ 63) then a / b else (2 ^ 64 - (2 ^ 64 - a) / b) % 2 ^ 64

-- `end` after the loop of to_string over the characters from the i-th on
unfoldable pub point_end : ℕ → ℕ → List ℕ → ℕ
point_end i last [] = last
point_end i last (c ∷ cs) = point_end (suc i) (if c == 46 then i + 2 else last) cs

-- what to_string makes of the text of its number
unfoldable pub trim : List ℕ → List ℕ
trim n =
    let last = point_end 0 (length n) n in take (if ltb (length n) last then length n else last) n

-- A `float`: its text, the test against 1024, and the division by it.
module _ {Float : Type 0} (std_to_string : Float → List ℕ) (of_long : ℕ → Float)
    (below : Float → Bool) (shrink : Float → Float) where
  unfoldable pub to_string : Float → List ℕ
  to_string f = trim (std_to_string f)

  -- the number in the first of the units in which it is below 1024, or in the last
  unfoldable pub in_units : List (List ℕ) → List ℕ → Float → List ℕ
  in_units [] last f = to_string f ++ last
  in_units (u ∷ us) last f =
      let rest = in_units us last (shrink f) in if below f then to_string f ++ u else rest

  unfoldable pub bytes2str : ℕ → List ℕ
  bytes2str byte =
      in_units (str "B" ∷ str "KB" ∷ str "MB" ∷ str "GB" ∷ []) (str "TB") (of_long byte)

  unfoldable pub speed : ℕ → ℕ → List ℕ
  speed bytes msec = bytes2str (div_long (bytes * 1000 % 2 ^ 64) msec) ++ str "/s"

-- the largest speed so far, and its text
pub record Peak : Type 0 where
  pub value : ℕ
  pub text : List ℕ

-- what `monite` remembers from one round to the next
pub record Watch : Type 0 where
  pub last_recv_bytes : ℕ
  pub last_send_bytes : ℕ
  pub last_recv_requests : ℕ
  pub last_send_responses : ℕ
  pub max_recv_data_speed : Peak
  pub max_send_data_speed : Peak
  pub max_recv_req_speed : Peak
  pub max_send_res_speed : Peak

-- the arguments of printf
pub record Report : Type 0 where
  pub connections : ℕ
  pub recv_requests : ℕ
  pub recv_request_speed : List ℕ
  pub send_responses : ℕ
  pub send_response_speed : List ℕ
  pub recv_data : List ℕ
  pub recv_byte_speed : List ℕ
  pub send_data : List ℕ
  pub send_byte_speed : List ℕ
  pub peaks : Watch
  pub task_queue_size : ℕ
  pub running_workers : ℕ

abbrev pub no_peak : Peak
no_peak = record { value = 0; text = [] }

unfoldable pub new_watch : Watch
new_watch = record {
  last_recv_bytes = 0;
  last_send_bytes = 0;
  last_recv_requests = 0;
  last_send_responses = 0;
  max_recv_data_speed = no_peak;
  max_send_data_speed = no_peak;
  max_recv_req_speed = no_peak;
  max_send_res_speed = no_peak;
}

-- A `double`: the number `d * 1000.0 / timeout` of an interval, the test against a `long long`, and the
-- conversion to one.
module _ {Double : Type 0} (rate : ℕ → ℕ → Double) (greater : Double → ℕ → Bool)
    (to_long : Double → ℕ) where
  unfoldable pub raise : Double → List ℕ → Peak → Peak
  raise d text p = if greater d p.value then record { value = to_long d; text = text } else p

  module _ {Float : Type 0} (std_to_string : Float → List ℕ) (of_long : ℕ → Float)
      (below : Float → Bool) (shrink : Float → Float) (narrow : Double → Float) where
    -- One round of `monite` after its sleep: what is printed, and what is remembered.
    unfoldable pub monite_round : ℕ → Monitor → Watch → Report × Watch
    monite_round timeout m w =
        let received = sub_long m.recv_bytes w.last_recv_bytes in
        let sent = sub_long m.send_bytes w.last_send_bytes in
        let requests = rate (sub_long m.recv_requests w.last_recv_requests) timeout in
        let responses = rate (sub_long m.send_responses w.last_send_responses) timeout in
        let data_in = speed std_to_string of_long below shrink received timeout in
        let data_out = speed std_to_string of_long below shrink sent timeout in
        let in_text = to_string std_to_string of_long below shrink (narrow requests) ++ str "/s" in
        let out_text =
          to_string std_to_string of_long below shrink (narrow responses) ++ str "/s" in
        let w' : Watch = record {
          last_recv_bytes = m.recv_bytes;
          last_send_bytes = m.send_bytes;
          last_recv_requests = m.recv_requests;
          last_send_responses = m.send_responses;
          max_recv_data_speed = raise (rate received timeout) data_in w.max_recv_data_speed;
          max_send_data_speed = raise (rate sent timeout) data_out w.max_send_data_speed;
          max_recv_req_speed = raise requests in_text w.max_recv_req_speed;
          max_send_res_speed = raise responses out_text w.max_send_res_speed;
        } in
        (
          record {
            connections = m.connections;
            recv_requests = m.recv_requests;
            recv_request_speed = in_text;
            send_responses = m.send_responses;
            send_response_speed = out_text;
            recv_data = bytes2str std_to_string of_long below shrink m.recv_bytes;
            recv_byte_speed = data_in;
            send_data = bytes2str std_to_string of_long below shrink m.send_bytes;
            send_byte_speed = data_out;
            peaks = w';
            task_queue_size = m.task_queue_size;
            running_workers = m.running_workers;
          },
          w',
        )

    -- `monite`: each round has `m_exit` as it is tested, and the counters after the sleep.
    unfoldable pub monite : ℕ → List (Bool × Monitor) → Watch → List Report × Watch
    monite timeout [] w = ([], w)
    monite timeout ((exit, m) ∷ more) w =
        let (report, w') = monite_round timeout m w in
        let (reports, w'') = monite timeout more w' in
        if exit then ([], w) else (report ∷ reports, w'')
