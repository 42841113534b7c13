-- ===== src/Http/Connection/Steps.antt =====
-- The events of one connection. Boost completes an operation at a time of its choice, and only one
-- that was started.
use cpp_network_programming.Base.{ℕ, suc, ◌≡◌, Bool, true, false, some, []}
use cpp_network_programming.Http.Message.{Request}
use cpp_network_programming.Http.Logic.{LogicSystem}
use cpp_network_programming.Http.Connection.{
  Conn, idle, waiting, due, on_read, on_write, on_deadline,
}

-- The parser fills `request_` before the callback runs.
unfoldable pub receive : Request → Conn → Conn
receive req c = record c { http = record (c.http) { request = req } }

pub data Step (sys : LogicSystem) (c d : Conn) : Type 0 where
  read_failed : c.reading ≡ true → on_read sys true c ≡ some d → Step sys c d
  read :
      (req : Request) → c.reading ≡ true → on_read sys false (receive req c) ≡ some d → Step sys c d
  wrote : c.writing ≡ true → d ≡ on_write c → Step sys c d
  expired : c.wait ≡ waiting → d ≡ record c { wait = due false } → Step sys c d
  waited : (aborted : Bool) → c.wait ≡ due aborted → d ≡ on_deadline aborted c → Step sys c d

-- Histories, with their number of events.
pub data Run (sys : LogicSystem) (c : Conn) : ℕ → Conn → Type 0 where
  here : Run sys c 0 c
  next : {n : ℕ} {d e : Conn} → Run sys c n d → Step sys d e → Run sys c (suc n) e

-- A connection that nothing has happened to.
pub record IsFresh (c : Conn) : Type 0 where
  pub not_reading : c.reading ≡ false
  pub not_writing : c.writing ≡ false
  pub no_wait : c.wait ≡ idle
  pub not_closed : c.closed ≡ false
  pub nothing_sent : c.sent ≡ []
