-- ===== src/Config/Settings.antt =====
-- The settings that RPC_server/server_service_config.cc and RPC_client/client_service_config.cc read
-- off a configuration. `none` is the exception of `stoi`.
use cpp_rpc.Prelude.{
  ℕ, ◌≡◌, ◌<◌, ◌^◌, inl, inr, true, Bool-cases, Option, some, List, [], ◌∷◌, ◌++◌, ◌>>=◌, leb, ltb,
  if◌then◌else◌, arith, Holds, Holds-bind, Holds-then,
}
use cpp_rpc.Config.{Str, value, stoi, non_empty, span, is_digit, digits_value}
use cpp_rpc.Config.Text.{str}
use cpp_rpc.Config.Lines.{all, stops, span_run}

-- `if(s.empty() || std::stoi(s)<=0) return default; else return std::stoi(s);`
unfoldable pub number : Str → ℕ → Option ℕ
number [] default = some default
number (c ∷ s) default = stoi (c ∷ s) >>= λ n. some (if leb n 0 then default else n)

unfoldable pub text_or : Str → Str → Str
text_or [] default = default
text_or (c ∷ s) default = c ∷ s

module _ (keys : List (Str × Str)) where
  unfoldable pub ip : Str
  ip = text_or (value keys (str "ip")) (str "127.0.0.1")

  unfoldable pub port : Option ℕ
  port = number (value keys (str "port")) 1234

  unfoldable pub max_client_count : Option ℕ
  max_client_count = number (value keys (str "max_client_count")) 2048

  unfoldable pub cache_size : Option ℕ
  cache_size = number (value keys (str "cache_size")) 1024000

  unfoldable pub worker_count : Option ℕ
  worker_count = number (value keys (str "worker_count")) 600

  unfoldable pub epoll_workers : Option ℕ
  epoll_workers = number (value keys (str "epoll_workers")) 40

  unfoldable pub max_server_count : Option ℕ
  max_server_count = number (value keys (str "max_server_count")) 1

  unfoldable pub request_timeout : Option ℕ
  request_timeout = number (value keys (str "request_timeout")) 3000

-- what every number among the settings is
abbrev pub IsPositive : ℕ → Type 0
IsPositive n = (0 < n) × (n < 2 ^ 31)

stoi-word : (s : Str) → Holds (λ n. n < 2 ^ 31) (stoi s)
unfolding stoi Holds
stoi-word s =
    Holds-then (λ n. n < 2 ^ 31) (non_empty (span is_digit s).0 (span is_digit s).1) _
      (λ r e. elim (Bool-cases (ltb (digits_value 0 r.0) (2 ^ 31))) [
        | inl q ↦ rw q (ground (arith, q))
        | inr q ↦ rw q tt
      ])

number-IsPositive :
    (s : Str) (default : ℕ) → IsPositive default → Holds IsPositive (number s default)
unfolding number Holds
number-IsPositive [] default p = p
number-IsPositive (c ∷ s) default p =
    Holds-bind (λ n. n < 2 ^ 31) IsPositive (stoi (c ∷ s)) _ (stoi-word (c ∷ s))
      (λ n e l. (ground (arith, p.0, l), ground (arith, p.1, l)))

-- Every number among the settings is positive and fits an `int`, whatever the file says, unless
-- reading it throws.
pub settings-IsPositive :
    (keys : List (Str × Str))
    → Holds IsPositive (port keys)
      × Holds IsPositive (max_client_count keys)
      × Holds IsPositive (cache_size keys)
      × Holds IsPositive (worker_count keys)
      × Holds IsPositive (epoll_workers keys)
      × Holds IsPositive (max_server_count keys)
      × Holds IsPositive (request_timeout keys)
unfolding port max_client_count cache_size worker_count epoll_workers max_server_count
    request_timeout
settings-IsPositive keys =
    let at : (name : Str) (n : ℕ) → IsPositive n → Holds IsPositive (number (value keys name) n) =
      λ name n p. number-IsPositive (value keys name) n p in
    (
      at (str "port") 1234 (omega arith, omega arith),
      at (str "max_client_count") 2048 (omega arith, omega arith),
      at (str "cache_size") 1024000 (omega arith, omega arith),
      at (str "worker_count") 600 (omega arith, omega arith),
      at (str "epoll_workers") 40 (omega arith, omega arith),
      at (str "max_server_count") 1 (omega arith, omega arith),
      at (str "request_timeout") 3000 (omega arith, omega arith),
    )

-- A value that starts with a decimal number sets it, up to the first character that is no digit, if
-- the number is positive and fits an `int`.
pub number_lem :
    (c : ℕ) (digits rest : Str) (default : ℕ)
    → all is_digit (c ∷ digits) ≡ true
    → stops is_digit rest ≡ true
    → 0 < digits_value 0 (c ∷ digits)
    → digits_value 0 (c ∷ digits) < 2 ^ 31
    → number ((c ∷ digits) ++ rest) default ≡ some (digits_value 0 (c ∷ digits))
unfolding number stoi non_empty
number_lem c digits rest default a s p l =
    let q = span_run is_digit (c ∷ digits) rest a s in rw (q, ◌>>=◌) (ground arith)
