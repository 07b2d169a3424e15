-- ===== src/Sockets/Wire.antt =====
-- `recv_msg` and `send_msg` of task06-sockets/src/utils.cpp. A connection is the list of the bytes that are on
-- their way. A 64-bit integer is its two's complement.
use systems_programming_labs.Prelude.{
  ℕ, zero, suc, ◌+◌, ◌-◌, ◌*◌, ◌/◌, ◌%◌, Bool, true, false, Option, none, some, List, [], ◌∷◌, ◌++◌,
  ◌==◌, if◌then◌else◌, length, take, drop,
}

abbrev pub Bytes : Type 0
Bytes = List ℕ

-- `sockets::message`, with the optional field `argument`.
pub record Message : Type 0 where
  pub operation : ℕ
  pub argument : Option ℕ

-- Protobuf's `SerializeToString` and `ParseFromString`.
pub record Protobuf : Type 0 where
  pub serialize : Message → Bytes
  pub parse : Bytes → Option Message

-- How many bytes a call of `send` takes of those that it is given, where so many are on their way, and how
-- many a call of `recv` gets of those that it asks for, where so many are on their way. `none` is a result
-- of 0 or less.
pub record Transport : Type 0 where
  pub send : ℕ → ℕ → Option ℕ
  pub recv : ℕ → ℕ → Option ℕ

-- The bytes of `htonl`, for a size that is cast to `uint32_t`.
unfoldable pub htonl_bytes : ℕ → Bytes
htonl_bytes n = n / 16777216 % 256 ∷ n / 65536 % 256 ∷ n / 256 % 256 ∷ n % 256 ∷ []

-- `ntohl` of the four bytes of an integer.
unfoldable pub ntohl : Bytes → ℕ
ntohl (a ∷ b ∷ c ∷ d ∷ rest) = ((a * 256 + b) * 256 + c) * 256 + d
ntohl [] = 0
ntohl (a ∷ []) = 0
ntohl (a ∷ b ∷ []) = 0
ntohl (a ∷ b ∷ c ∷ []) = 0

-- The loop that reads the payload, with the bytes that are still to come. The fuel is their number.
unfoldable pub recv_loop : Transport → ℕ → ℕ → Bytes → Bytes → Option Bytes × Bytes
recv_loop net zero missing stream buf = (if missing == 0 then some buf else none, stream)
recv_loop net (suc fuel) missing stream buf =
    if missing == 0 then (some buf, stream) else elim (net.recv missing (length stream)) [
      | none ↦ (none, stream)
      | some n ↦ recv_loop net fuel (missing - n) (drop n stream) (buf ++ take n stream)
    ]

unfoldable pub argument_or_zero : Option ℕ → ℕ
argument_or_zero none = 0
argument_or_zero (some argument) = argument

-- `recv_msg`: the operation and the argument, or `none` for the result 1; and the bytes that are left. The
-- variable `size` holds `garbage` before.
unfoldable pub recv_msg : Protobuf → Transport → Bytes → Bytes → Option (ℕ × ℕ) × Bytes
recv_msg pb net garbage stream = elim (net.recv 4 (length stream)) [
  | none ↦ (none, stream)
  | some n ↦
      let size = ntohl (take n stream ++ drop n garbage) in
      let (payload, rest) = recv_loop net size size (drop n stream) [] in
      elim payload [
        | none ↦ (none, rest)
        | some bytes ↦ elim (pb.parse bytes) [
          | none ↦ (none, rest)
          | some msg ↦ (some (msg.operation, argument_or_zero msg.argument), rest)
        ]
      ]
]

-- The loop that writes the payload. The fuel is its length.
unfoldable pub send_loop : Transport → ℕ → Bytes → Bytes → Bool × Bytes
send_loop net zero payload stream = (length payload == 0, stream)
send_loop net (suc fuel) payload stream =
    if length payload == 0
    then (true, stream)
    else elim (net.send (length payload) (length stream)) [
      | none ↦ (false, stream)
      | some n ↦ send_loop net fuel (drop n payload) (stream ++ take n payload)
    ]

-- `send_msg`: whether it returns 0, and the bytes that are then on their way.
unfoldable pub send_msg : Protobuf → Transport → ℕ → ℕ → Bytes → Bool × Bytes
send_msg pb net operation argument stream =
    let payload = pb.serialize (record { operation = operation; argument = some argument }) in
    elim (net.send 4 (length stream)) [
      | none ↦ (false, stream)
      | some n ↦
          send_loop net (length payload) payload (stream ++ take n (htonl_bytes (length payload)))
    ]
