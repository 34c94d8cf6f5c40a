-- ===== src/Tcp/Handshake.antt =====
-- The client and the server at the two ends of a connection.
use esp32_common.Common.{ℕ, ◌≡◌, [], ◌∷◌, ◌≤◌}
use esp32_common.Common.Memory.{Bytes}
use esp32_common.Tcp.Client.{tsinit, Client}
use esp32_common.Tcp.Loops.{begins}
use esp32_common.Tcp.Sending.{Answer, took}
use esp32_common.Tcp.Server.{Layout, comminit, Server, Env, Next, receive_loop, data_of, received}

-- What the client sends first.
abbrev pub hello : Layout → Client → Bytes
hello l c = l.set_message tsinit comminit c.message

-- The server with a new connection, over which `bytes` come.
abbrev pub served : Layout → ℕ → Env → Bytes → Server → Next × Server
served l sock env bytes s = receive_loop l sock (received (data_of bytes) env ∷ []) (begins sock s)

-- The first call of `send` takes all that it is given.
pub record AtOnce (size : ℕ) (answer : ℕ → Answer) : Type 0 where
  pub n : ℕ
  pub first : answer 0 ≡ took n
  pub enough : size ≤ n
