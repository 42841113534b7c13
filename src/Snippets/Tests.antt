-- ===== src/Snippets/Tests.antt =====
-- The snippets at concrete errors.
use cpp_network_programming.Base.{◌≡◌, refl, none, some, [], ◌∷◌}
use cpp_network_programming.Snippets.{
  pos, escaped, bind_acceptor_socket, open_first_address, open_socket, returned, address_found,
  errno_is, uncaught, checked,
}

-- EADDRINUSE stops the bind; a name that is not found has the value 1.
in_use : (bind_acceptor_socket none (some (pos 97)) (pos 98)).outcome ≡ escaped (pos 97)
unfolding bind_acceptor_socket uncaught checked
in_use = refl

no_descriptor :
    open_first_address (some (record { ai_socktype = pos 1; ai_protocol = pos 6 })) (some (pos 24))
    ≡ record {
      printed = address_found (pos 1) (pos 6) ∷ errno_is (pos 24) ∷ [];
      outcome = returned (pos 1);
    }
unfolding open_first_address open_socket
no_descriptor = refl
