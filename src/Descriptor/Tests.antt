-- ===== src/Descriptor/Tests.antt =====
-- The descriptors of class Socket at concrete answers.
use technopark_cpp.Descriptor.{
  opened, failure, ConnectAnswers, fail, Process, success, ServerAnswers, connect, connect_timeout,
  create_server_socket,
}
use technopark_cpp.Descriptor.Balance.{
  Balanced, connect-Balanced, connect_timeout-Balanced, create_server_socket-Balanced,
}
use technopark_cpp.Prelude.{String, [], arith, false, negsuc, pos, refl, ◌∷◌, ◌≡◌, ◌≢◌, ◌⊎◌}

-- A process with the standard streams open, and a new object
abbrev process : Process
process = record { m_sd = negsuc 0; open_sds = pos 2 ∷ pos 1 ∷ pos 0 ∷ [] }

abbrev refused : ConnectAnswers
refused = record {
  resolved = success;
  sd = pos 3;
  socket_text = "";
  non_blocked = failure "Bad file descriptor";
  connected = failure "Connection refused";
  pending = false;
  ready = pos 0;
}

abbrev in_use : ServerAnswers
in_use = record {
  server_sd = pos 3;
  server_text = "";
  reuse = success;
  bound = failure "Address already in use";
}

not_zero : pos 3 ≢ pos 0
not_zero e = absurd (ground arith)

connect-Balanced_example : Balanced (pos 3) process (connect refused process)
connect-Balanced_example = connect-Balanced refused process (refl, (refl, (refl, tt))) not_zero

connect_timeout-Balanced_example :
    Balanced (pos 3) process (connect_timeout refused process)
    ⊎ ((text : String) × (failure "Bad file descriptor" ≡ failure text)
        × (connect_timeout refused process
            ≡ fail "make nonblocked: " text (opened (pos 3) process)))
connect_timeout-Balanced_example =
    connect_timeout-Balanced refused process refl (refl, (refl, (refl, tt))) not_zero

create_server_socket-Balanced_example :
    Balanced (pos 3) process (create_server_socket in_use process)
create_server_socket-Balanced_example =
    create_server_socket-Balanced in_use process (refl, (refl, (refl, tt))) not_zero
