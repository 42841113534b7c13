-- ===== src/Http/Server/Tests.antt =====
-- The accept loop at concrete events.
use cpp_network_programming.Base.{true, List, [], ◌∷◌}
use cpp_network_programming.Http.Server.{Accepted, failed, socket, Server}

abbrev listening : Server
listening = record { accepting = true; connections = [] }

abbrev events : List Accepted
events = socket 7 ∷ failed ∷ socket 9 ∷ []
