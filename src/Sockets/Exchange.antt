-- ===== src/Sockets/Exchange.antt =====
-- A client and the server over one connection, for client.cpp and server.cpp of task06-sockets/src.
use systems_programming_labs.Prelude.{
  ℕ, zero, suc, ◌+◌, ◌-◌, ◌%◌, ◌<◌, Option, none, some, [], ◌++◌, ◌==◌, if◌then◌else◌, add64, sub64,
  word_size,
}
use systems_programming_labs.Sockets.Wire.{Bytes, Protobuf, Transport}
use systems_programming_labs.Sockets.Framing.{IsReliable, ReadsBack, frame}
use systems_programming_labs.Sockets.Programs.{operation_add, operation_sub, operation_counter}

module _ (pb : Protobuf) (back : ReadsBack pb) (net : Transport) (reliable : IsReliable net)
    (garbage : Bytes) (add sub : ℕ) (small_add : add < word_size)
    (small_sub : sub < word_size) where
  -- The bytes of the messages from number `i` on.
  unfoldable frames : ℕ → ℕ → Bytes
  frames i zero = []
  frames i (suc left) =
      (if i % 2 == 0 then frame pb operation_sub sub else frame pb operation_add add)
      ++ frames (i + 1) left

  -- The counter behind these messages.
  unfoldable counted : ℕ → ℕ → ℕ → ℕ
  counted i zero number = number
  counted i (suc left) number =
      counted (i + 1) left (if i % 2 == 0 then sub64 number sub else add64 number add)

  -- The sum of what these messages add, where a subtraction adds the two's complement.
  tally : ℕ → ℕ → ℕ
  tally i zero = 0
  tally i (suc left) = (if i % 2 == 0 then word_size - sub else add) + tally (i + 1) left

  -- What the client prints of what it received.
  abbrev printed : Option (ℕ × ℕ) × Bytes → Option ℕ
  printed r = elim r.0 [
    | none ↦ none
    | some (operation, argument) ↦ if operation == operation_counter then some argument else none
  ]
