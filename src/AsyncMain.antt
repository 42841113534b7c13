-- ===== src/AsyncMain.antt =====
-- `main` of asio/async/01_bad_echo_server, 02_good_echo_server, 03_full_duplex_server and
-- 04_sticky_packs: it makes an io_context and a server, which opens the port or throws, runs the
-- io_context, and catches a std::exception.
pub mod Ends
pub mod Tests
use mathlib.Core.Path.{subst}
use cpp_network_programming.Base.{
  Bool, true, false, ◌↔◌, map, length-map, ℕ, ◌≡◌, ◌⊎◌, inl, inr, refl, sym, ◌∙◌, List, [], ◌∷◌,
  arith, length, count, ◌≤◌, ◌≢◌, none, ◌++◌, drop, Bytes, zero, suc, ap, replicate, append-nil,
  All,
}
use cpp_network_programming.SyncEcho.{c_string}
use cpp_network_programming.SyncEcho.RoundTrip.{c_string-none}
use cpp_network_programming.BadEcho
use cpp_network_programming.BadEcho.OneOperation
use cpp_network_programming.BadEcho.OneOperation.{Reach-never_deleted_twice}
use cpp_network_programming.BadEcho.Accepting.{Reach-accepts}
use cpp_network_programming.GoodEcho
use cpp_network_programming.GoodEcho.Reachable
use cpp_network_programming.GoodEcho.NoEcho.{Outcome, Reach-never_echoes, no_later_read}
use cpp_network_programming.GoodEcho.Accepting as GoodAccepting
use cpp_network_programming.Duplex
use cpp_network_programming.Duplex.Accepting as DuplexAccepting
use cpp_network_programming.StickyPacks.Server as Sticky
use cpp_network_programming.StickyPacks.Server.Projection.{op}
use cpp_network_programming.StickyPacks.Server.Simulates as Simulates

-- A server by what `ioc.run()` meets: the states that its callbacks lead to, the number of
-- operations that are under way, and whether the next callback can throw or be undefined.
pub record AsyncServer : Type 1 where
  pub State : Type 0
  pub Reach : State → Type 0
  pub under_way : State → ℕ
  pub Throws : State → Type 0
  pub Breaks : State → Type 0

-- `ioc.run()` returns, an exception of a callback or of the server's constructor is caught (both give
-- the exit code 0), or the behaviour is undefined.
pub data Exit : Type 0 where
  drained caught broken : Exit

-- `constructed` says whether the constructor of the server returns: it opens the port and makes the
-- first session.
pub data Main (server : AsyncServer) (constructed : Bool) : Exit → Type 0 where
  refuses : constructed ≡ false → Main server constructed caught
  drains :
      (s : server.State)
      → constructed ≡ true
      → server.Reach s
      → server.under_way s ≡ 0
      → Main server constructed drained
  throws :
      (s : server.State)
      → constructed ≡ true
      → server.Reach s
      → server.Throws s
      → Main server constructed caught
  breaks :
      (s : server.State)
      → constructed ≡ true
      → server.Reach s
      → server.Breaks s
      → Main server constructed broken

-- A callback that runs may throw: it allocates for what it starts, makes a session with a random
-- uuid or puts a node into a queue.
abbrev pub MayThrow : ℕ → Type 0
MayThrow operations = 1 ≤ operations

-- `cout << data_` once a read has put bytes into `data_`, and no string ends in it.
pub record Overread (data_ : Bytes) : Type 0 where
  pub bytes : Bytes
  pub fits : length bytes ≤ BadEcho.max_length
  pub endless : c_string (bytes ++ drop (length bytes) data_) ≡ none

-- A read of such bytes is under way.
abbrev pub BadOverreads : BadEcho.Server → Type 0
BadOverreads s =
    (before : List BadEcho.Op) × (after : List BadEcho.Op) × (id : ℕ) × (s.ops
      ≡ before ++ BadEcho.read id ∷ after)
    × Overread (s.buffers id)

abbrev GoodOverreads : GoodEcho.Server → Type 0
GoodOverreads s =
    (before : List GoodEcho.Op) × (after : List GoodEcho.Op) × (id : ℕ) × (s.ops
      ≡ before ++ GoodEcho.read id ∷ after)
    × Overread (s.objects id).data_

abbrev DuplexOverreads : Duplex.Server → Type 0
DuplexOverreads s =
    (before : List Duplex.Op) × (after : List Duplex.Op) × (id : ℕ) × (s.ops
      ≡ before ++ Duplex.read id ∷ after)
    × Overread (s.objects id).data_

abbrev StickyOverreads : Sticky.Server → Type 0
StickyOverreads s =
    (before : List Sticky.Op) × (after : List Sticky.Op) × (id : ℕ) × (s.ops
      ≡ before ++ Sticky.read id ∷ after)
    × Overread (s.objects id).data_

abbrev pub BadDeletes : BadEcho.Server → Type 0
BadDeletes s =
    OneOperation.Step s BadEcho.use_after_free ⊎ OneOperation.Step s BadEcho.double_delete

abbrev pub bad_server : AsyncServer
bad_server = record {
  State = BadEcho.Server;
  Reach = OneOperation.Reach;
  under_way = λ s. length s.ops;
  Throws = λ s. MayThrow (length s.ops);
  Breaks = λ s. BadDeletes s ⊎ BadOverreads s;
}

-- 02 asks for a shared pointer before it prints what a first read brought.
abbrev pub good_server : AsyncServer
good_server = record {
  State = GoodEcho.Server;
  Reach = Reachable.Reach;
  under_way = λ s. length s.ops;
  Throws = λ s. Reachable.Step s GoodEcho.bad_weak_ptr ⊎ MayThrow (length s.ops);
  Breaks = λ s. Reachable.Step s GoodEcho.use_after_free ⊎ GoodOverreads s;
}

abbrev pub duplex_server : AsyncServer
duplex_server = record {
  State = Duplex.Server;
  Reach = DuplexAccepting.Runs;
  under_way = λ s. length s.ops;
  Throws = λ s. MayThrow (length s.ops);
  Breaks = λ s.
      (DuplexAccepting.Completes s Duplex.use_after_free
        ⊎ DuplexAccepting.Completes s Duplex.pop_empty)
      ⊎ DuplexOverreads s;
}

abbrev pub sticky_server : AsyncServer
sticky_server = record {
  State = Sticky.Server;
  Reach = Simulates.Runs;
  under_way = λ s. length s.ops;
  Throws = λ s. MayThrow (length s.ops);
  Breaks = λ s.
      (Simulates.Completes s Sticky.use_after_free ⊎ Simulates.Completes s Sticky.pop_empty)
      ⊎ StickyOverreads s;
}
