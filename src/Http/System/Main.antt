-- ===== src/Http/System/Main.antt =====
-- main of beast/http_server/src/main.cpp: it waits for the signals, makes the server, which opens
-- the port or throws, runs the io_context, and catches a std::exception.
use cpp_network_programming.Base.{ℕ, ◌≡◌, Bool, Option, true, false, some, none, All}
use cpp_network_programming.Http.Logic.{LogicSystem}
use cpp_network_programming.Http.Connection.{Conn, idle}
use cpp_network_programming.Http.System.{System, Event, Reach}

-- The exit code, or that a failed assertion has ended the program. What is printed is left out: the
-- callbacks print the errors of reads and of accepts as well.
pub data Exit : Type 0 where
  returned : ℕ → Exit
  aborted : Exit

abbrev pub IsIdle : Conn → Type 0
IsIdle c = (c.reading ≡ false) × (c.writing ≡ false) × (c.wait ≡ idle)

-- Nothing is under way: `ioc.run()` returns then too.
pub record HasNoWork (s : System) : Type 0 where
  pub no_wait : s.waiting ≡ false
  pub no_accept : s.server.accepting ≡ false
  pub no_operation : All IsIdle s.conns

-- `binds` says whether what is made before `ioc.run()` is: the port is free, and nothing else throws.
-- `last` is the state in which `ioc.run()` stands when it is left: by the callback of the signals, for
-- want of work, by an exception of a callback, or by a failed assertion.
pub data Main (sys : LogicSystem) (binds : Bool) (last : Option System) (e : Exit) : Type 0 where
  refuses : binds ≡ false → last ≡ none → e ≡ returned 0 → Main sys binds last e
  stops :
      (s : System)
      → binds ≡ true
      → last ≡ some s
      → Reach sys s
      → s.running ≡ false
      → e ≡ returned 0
      → Main sys binds last e
  drains :
      (s : System)
      → binds ≡ true
      → last ≡ some s
      → Reach sys s
      → HasNoWork s
      → e ≡ returned 0
      → Main sys binds last e
  throws :
      (s : System)
      → binds ≡ true
      → last ≡ some s
      → Reach sys s
      → ¬ HasNoWork s
      → e ≡ returned 0
      → Main sys binds last e
  aborts :
      (s : System)
      → binds ≡ true
      → last ≡ some s
      → Reach sys s
      → Event sys s none
      → e ≡ aborted
      → Main sys binds last e
