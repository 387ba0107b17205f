-- ===== src/Config/ClientSettings.antt =====
-- The getters of RPC_client/client_service_config.cc that the server's class has too.
use cpp_rpc.Prelude.{ℕ, Option, List}
use cpp_rpc.Config.{Str, value}
use cpp_rpc.Config.Text.{str}
use cpp_rpc.Config.Settings.{number, text_or}

module _ (keys : List (Str × Str)) where
  unfoldable pub ip : Str
  ip = text_or (value keys (str "ip")) (str "127.0.0.1")

  unfoldable pub port : Option ℕ
  port = number (value keys (str "port")) 1234

  unfoldable pub cache_size : Option ℕ
  cache_size = number (value keys (str "cache_size")) 1024000
