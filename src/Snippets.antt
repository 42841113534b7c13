-- ===== src/Snippets.antt =====
-- basic/code_snippet.cpp, with ClientEndPoint of basic/main.cpp and of main.cpp, and `main` of
-- xiaopeng/server.cpp: functions that make one object of the network after another. What each call
-- of the library or of the system reports is an argument.
pub mod Tests
use cpp_network_programming.Base.{
  ℕ, zero, suc, Bool, true, false, Option, none, some, List, [], ◌∷◌, if◌then◌else◌,
}

-- Integers over the native numbers; the values of some errors, such as EAI_SERVICE, are negative.
pub data ℤ : Type 0 where
  pos negsuc : ℕ → ℤ

pub is_zero : ℤ → Bool
is_zero (pos zero) = true
is_zero (pos (suc n)) = false
is_zero (negsuc n) = false

-- What a call that throws reports: the value in the `system_error`, if there is one.
abbrev pub Thrown : Type 0
Thrown = Option ℤ

-- A function returns a value, or an exception leaves it.
pub data Outcome : Type 0 where
  returned escaped : ℤ → Outcome

-- What it prints: the message for a call that failed, or the address that was found.
pub data Message : Type 0 where
  parse_failed open_failed acceptor_failed bind_failed error_occured errno_is : ℤ → Message
  perror : Message
  address_found : ℤ → ℤ → Message

pub record Result : Type 0 where
  pub printed : List Message
  pub outcome : Outcome

abbrev pub fine : Result
fine = record { printed = []; outcome = returned (pos 0) }

-- A call outside of every `try`, and what follows it.
uncaught : Thrown → Result → Result
uncaught (some error) more = record { printed = []; outcome = escaped error }
uncaught none more = more

-- A call inside of a `try` whose handler prints the error and returns its value.
caught : Thrown → Result → Result
caught (some error) more = record { printed = error_occured error ∷ []; outcome = returned error }
caught none more = more

-- `if (ec.value() != 0)` after a call that sets `ec`.
checked : (ℤ → Message) → ℤ → Result → Result
checked message ec more =
    if is_zero ec then more else record { printed = message ec ∷ []; outcome = returned ec }

pub client_end_point : ℤ → Result
client_end_point parsed = checked parse_failed parsed fine

pub server_end_point : Result
server_end_point = fine

pub create_tcp_socket : Thrown → ℤ → Result
create_tcp_socket context opened = uncaught context (checked open_failed opened fine)

pub create_acceptor_socket : Thrown → ℤ → Result
create_acceptor_socket context opened = uncaught context (checked acceptor_failed opened fine)

-- The acceptor's constructor opens it, and throws if it cannot.
pub bind_acceptor_socket : Thrown → Thrown → ℤ → Result
bind_acceptor_socket context opened bound =
    uncaught context (uncaught opened (checked bind_failed bound fine))

pub connect_to_end : Thrown → Thrown → Thrown → Thrown → Result
connect_to_end parsed context opened connected =
    caught parsed (caught context (caught opened (caught connected fine)))

-- The context is made before the `try`; what resolves the name and connects is inside.
pub dns_connect_to_end : Thrown → Thrown → Thrown → Result
dns_connect_to_end context resolved connected =
    uncaught context (caught resolved (caught connected fine))

-- ClientEndPoint of basic/main.cpp.
pub basic_client_end_point : ℤ → Result
basic_client_end_point parsed = checked parse_failed parsed fine

-- ClientEndPoint of main.cpp.
pub main_client_end_point : ℤ → Result
main_client_end_point parsed = checked parse_failed parsed fine

-- The first address that getaddrinfo gives.
pub record AddrInfo : Type 0 where
  pub ai_socktype : ℤ
  pub ai_protocol : ℤ

-- `socket` gives a descriptor, or -1 and an errno.
open_socket : Option ℤ → AddrInfo → Result
open_socket (some errno) info = record {
  printed = address_found info.ai_socktype info.ai_protocol ∷ errno_is errno ∷ [];
  outcome = returned (pos 1);
}
open_socket none info = record {
  printed = address_found info.ai_socktype info.ai_protocol ∷ [];
  outcome = returned (pos 0);
}

-- `main` of xiaopeng/server.cpp.
pub open_first_address : Option AddrInfo → Option ℤ → Result
open_first_address none socket = record { printed = perror ∷ []; outcome = returned (pos 1) }
open_first_address (some info) socket = open_socket socket info
