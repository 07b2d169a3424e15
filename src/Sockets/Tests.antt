-- ===== src/Sockets/Tests.antt =====
-- Runs of task06-sockets/src with a protobuf of two numbers, over a connection that takes bytes one at a time.
use systems_programming_labs.Prelude.{
  ℕ, ◌≡◌, refl, true, false, Option, none, some, List, [], ◌∷◌, ◌==◌, inl, inr, if◌then◌else◌,
  add64, arith,
}
use mathlib.Core.List.{Perm, reverse}
use systems_programming_labs.Sockets.Wire.{
  Protobuf, Transport, htonl_bytes, ntohl, recv_loop, argument_or_zero, recv_msg, send_loop,
  send_msg,
}
use systems_programming_labs.Sockets.Framing.{Split}
use systems_programming_labs.Sockets.Programs.{
  handle_operation, handle_client, send_operations, client_requests,
}
use systems_programming_labs.Sockets.Worker.{
  Client, World, put_bytes, handle, remove_at, round_loop, round,
}
use systems_programming_labs.Sockets.Rounds.{handle_each, round-Agrees}

abbrev two_numbers : Protobuf
two_numbers = record {
  serialize = λ m. elim m.argument [
    | none ↦ m.operation ∷ []
    | some argument ↦ m.operation ∷ argument ∷ []
  ];
  parse = λ bytes. elim bytes [
    | [] ↦ none
    | operation ∷ rest ↦ elim rest [
      | [] ↦ some (record { operation = operation; argument = none })
      | argument ∷ more ↦ some (record { operation = operation; argument = some argument })
    ]
  ];
}

-- Four bytes in one piece, and others one at a time.
abbrev piece : ℕ → ℕ → Option ℕ
piece len other = if len == 4 then some 4 else some 1

abbrev slow : Transport
slow = record { send = piece; recv = piece }

run_requests :
    client_requests two_numbers slow 2 5 3
    ≡ (true, 0 ∷ 0 ∷ 0 ∷ 2 ∷ 1 ∷ 5 ∷ 0 ∷ 0 ∷ 0 ∷ 2 ∷ 2 ∷ 3 ∷ 0 ∷ 0 ∷ 0 ∷ 2 ∷ 3 ∷ 0 ∷ [])
unfolding client_requests send_operations send_msg send_loop htonl_bytes
run_requests = refl

-- A connection that ends inside the payload.
run_cut :
    recv_msg two_numbers
      (record { send = piece; recv = λ len ready. if ready == 0 then none else piece len ready })
      (9 ∷ 9 ∷ 9 ∷ 9 ∷ [])
      (0 ∷ 0 ∷ 0 ∷ 2 ∷ 1 ∷ [])
    ≡ (none, [])
unfolding recv_msg recv_loop ntohl
run_cut = refl

-- Where `recv` gets two of the four bytes of the size, the rest of it is what the variable held before.
run_split_size :
    (recv_msg two_numbers
      (record { send = piece; recv = λ len ready. some 2 })
      (9 ∷ 9 ∷ 0 ∷ 2 ∷ [])
      (0 ∷ 0 ∷ 0 ∷ 2 ∷ 1 ∷ 5 ∷ [])).0
    ≡ some (0, 2)
unfolding recv_msg recv_loop ntohl argument_or_zero
run_split_size = refl

-- The sizes are not split there, so that it is the other case.
slow-whole : ¬ Split slow
slow-whole (inl (sent, n, is, fewer)) = ground (arith, is, fewer)
slow-whole (inr (ready, n, is, fewer)) = ground (arith, is, fewer)

-- Three clients: one that is done, one with nothing to read, one that adds.
abbrev three_clients : List Client
three_clients =
    record { fd = 4; readable = true }
    ∷ record { fd = 5; readable = false }
    ∷ record { fd = 6; readable = true }
    ∷ []

abbrev busy_world : World
busy_world = record {
  number = 10;
  incoming = λ fd.
      if fd == 4
      then 0 ∷ 0 ∷ 0 ∷ 2 ∷ 3 ∷ 0 ∷ []
      else if fd == 6
      then 0 ∷ 0 ∷ 0 ∷ 2 ∷ 1 ∷ 5 ∷ []
      else [];
  outgoing = λ fd. [];
  closed = [];
}

-- The client that is done is replaced by the last one, and learns the counter that the last one changed.
run_round :
    ((round two_numbers slow [] three_clients busy_world).0
      ≡ record { fd = 6; readable = true } ∷ record { fd = 5; readable = false } ∷ [])
    × ((round two_numbers slow [] three_clients busy_world).1.number ≡ 15)
    × ((round two_numbers slow [] three_clients busy_world).1.closed ≡ 4 ∷ [])
    × ((round two_numbers slow [] three_clients busy_world).1.outgoing 4
        ≡ 0 ∷ 0 ∷ 0 ∷ 2 ∷ 4 ∷ 15 ∷ [])
unfolding round round_loop handle handle_client handle_operation recv_msg recv_loop ntohl
    argument_or_zero send_msg send_loop htonl_bytes put_bytes remove_at add64
run_round = (refl, refl, refl, refl)

round-Agrees_example :
    Perm
      (round two_numbers slow [] three_clients busy_world).0
      (handle_each two_numbers slow [] (reverse three_clients) ([], busy_world)).0
    × ((round two_numbers slow [] three_clients busy_world).1
        ≡ (handle_each two_numbers slow [] (reverse three_clients) ([], busy_world)).1)
round-Agrees_example = round-Agrees two_numbers slow [] three_clients busy_world
