-- ===== src/Sockets/Programs.antt =====
-- What server.cpp and client.cpp of task06-sockets/src do on one connection. The server's counter is the two's
-- complement of an `int64_t`.
use systems_programming_labs.Prelude.{
  ℕ, zero, suc, ◌+◌, ◌%◌, Bool, true, false, Option, none, some, [], ◌==◌, if◌then◌else◌, add64,
  sub64,
}
use systems_programming_labs.Sockets.Wire.{Bytes, Protobuf, Transport, recv_msg, send_msg}

abbrev pub operation_add : ℕ
operation_add = 1

abbrev pub operation_sub : ℕ
operation_sub = 2

abbrev pub operation_termination : ℕ
operation_termination = 3

abbrev pub operation_counter : ℕ
operation_counter = 4

-- The result of `handle_client`, the counter, and the bytes on the way to and from the server.
pub record Served : Type 0 where
  pub closing : Bool
  pub number : ℕ
  pub incoming : Bytes
  pub outgoing : Bytes

-- The cases of `handle_client`, with the bytes that are left of those on the way to the server.
unfoldable pub handle_operation : Protobuf → Transport → ℕ × ℕ → ℕ → Bytes → Bytes → Served
handle_operation pb net (operation, argument) number incoming outgoing =
    if operation == operation_add
    then record {
      closing = false;
      number = add64 number argument;
      incoming = incoming;
      outgoing = outgoing;
    }
    else if operation == operation_sub
    then record {
      closing = false;
      number = sub64 number argument;
      incoming = incoming;
      outgoing = outgoing;
    }
    else if operation == operation_termination
    then record {
      closing = true;
      number = number;
      incoming = incoming;
      outgoing = (send_msg pb net operation_counter number outgoing).1;
    }
    else record { closing = true; number = number; incoming = incoming; outgoing = outgoing }

-- `handle_client`
unfoldable pub handle_client : Protobuf → Transport → Bytes → ℕ → Bytes → Bytes → Served
handle_client pb net garbage number incoming outgoing =
    let received = recv_msg pb net garbage incoming in
    elim received.0 [
      | none ↦ record {
        closing = true;
        number = number;
        incoming = received.1;
        outgoing = outgoing;
      }
      | some message ↦ handle_operation pb net message number received.1 outgoing
    ]

-- A worker that has one client, until that client is done. The fuel bounds the calls of `handle_client`.
unfoldable pub serve : Protobuf → Transport → Bytes → ℕ → ℕ → Bytes → Bytes → Option Served
serve pb net garbage zero number incoming outgoing = none
serve pb net garbage (suc fuel) number incoming outgoing =
    let served = handle_client pb net garbage number incoming outgoing in
    let later = serve pb net garbage fuel served.number served.incoming served.outgoing in
    if served.closing then some served else later

-- The loop of `client_kernel` from message `i` on, with the number of messages that are left.
unfoldable pub send_operations : Protobuf → Transport → ℕ → ℕ → ℕ → ℕ → Bytes → Bool × Bytes
send_operations pb net add sub i zero stream = (true, stream)
send_operations pb net add sub i (suc left) stream =
    let (sent, stream') =
      if i % 2 == 0
      then send_msg pb net operation_sub sub stream
      else send_msg pb net operation_add add stream in
    let later = send_operations pb net add sub (i + 1) left stream' in
    if sent then later else (false, stream')

-- `client_kernel` up to its last `send_msg`: whether it gets past it, and the bytes that are then on the way.
unfoldable pub client_requests : Protobuf → Transport → ℕ → ℕ → ℕ → Bool × Bytes
client_requests pb net messages add sub =
    let (sent, stream) = send_operations pb net add sub 1 messages [] in
    if sent then send_msg pb net operation_termination 0 stream else (false, stream)

-- `client_kernel` from its `recv_msg` on: the number that it prints, if it prints one.
unfoldable pub client_reply : Protobuf → Transport → Bytes → Bytes → Option ℕ
client_reply pb net garbage incoming = elim (recv_msg pb net garbage incoming).0 [
  | none ↦ none
  | some (operation, argument) ↦ if operation == operation_counter then some argument else none
]
