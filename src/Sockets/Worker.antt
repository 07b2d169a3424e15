-- ===== src/Sockets/Worker.antt =====
-- One round of `server_kernel` in task06-sockets/src/server.cpp over the clients of a worker.
use systems_programming_labs.Prelude.{
  ℕ, zero, suc, ◌-◌, Bool, false, none, some, List, [], ◌∷◌, ◌++◌, ◌==◌, if◌then◌else◌, length,
  get_elem?, set, take,
}
use systems_programming_labs.Sockets.Wire.{Bytes, Protobuf, Transport}
use systems_programming_labs.Sockets.Programs.{handle_client}

-- An entry of `active_clients`, and whether `poll` reports that it can be read.
pub record Client : Type 0 where
  pub fd : ℕ
  pub readable : Bool

-- The counter, the bytes on the way on each connection, and the connections that the server closed.
pub record World : Type 0 where
  pub number : ℕ
  pub incoming : ℕ → Bytes
  pub outgoing : ℕ → Bytes
  pub closed : List ℕ

unfoldable pub put_bytes : ℕ → Bytes → (ℕ → Bytes) → ℕ → Bytes
put_bytes fd bytes streams other = if other == fd then bytes else streams other

-- `push_back` of the clients that wait, each before its first `poll`.
unfoldable pub take_pending : List ℕ → List Client → List Client
take_pending [] active = active
take_pending (client ∷ pending) active =
    take_pending pending (active ++ (record { fd = client; readable = false } ∷ []))

-- `handle_client`, and `close` if it says so.
unfoldable pub handle : Protobuf → Transport → Bytes → ℕ → World → Bool × World
handle pb net garbage fd w =
    let served = handle_client pb net garbage w.number (w.incoming fd) (w.outgoing fd) in
    (
      served.closing,
      record {
        number = served.number;
        incoming = put_bytes fd served.incoming w.incoming;
        outgoing = put_bytes fd served.outgoing w.outgoing;
        closed = if served.closing then w.closed ++ (fd ∷ []) else w.closed;
      },
    )

-- `clients[i] = clients.back(); clients.pop_back();`
unfoldable pub remove_at : ℕ → List Client → List Client
remove_at i clients = elim (get_elem? clients (length clients - 1)) [
  | none ↦ clients
  | some back ↦ take (length clients - 1) (set clients i back)
]

-- The loop over the clients, where `suc i` stands for the index `i`, and 0 for the end.
unfoldable pub round_loop :
    Protobuf → Transport → Bytes → ℕ → List Client → World → List Client × World
round_loop pb net garbage zero clients w = (clients, w)
round_loop pb net garbage (suc i) clients w = elim (get_elem? clients i) [
  | none ↦ (clients, w)
  | some c ↦
      let handled = handle pb net garbage c.fd w in
      let skip = round_loop pb net garbage i clients w in
      let keep = round_loop pb net garbage i clients handled.1 in
      let drop_it = round_loop pb net garbage i (remove_at i clients) handled.1 in
      if c.readable then if handled.0 then drop_it else keep else skip
]

-- The round behind `poll`.
unfoldable pub round : Protobuf → Transport → Bytes → List Client → World → List Client × World
round pb net garbage clients w = round_loop pb net garbage (length clients) clients w
