-- ===== src/Allocator/Refine/Returns.antt =====
-- Total correctness of a command: it ends, touches no address without a header, and meets a
-- postcondition.
use systems_programming_labs.Prelude.{some}
use systems_programming_labs.Allocator.Heap.{Heap, Run, Cmd, and_then}

abbrev pub Post : Type 0 → Type 1
Post V = V → Heap → Type 0

pub data Returns {V : Type 0} (post : Post V) : Run V → Type 0 where
  returns : {value : V} {final : Heap} → post value final → Returns post (some (value, final))

-- A weaker postcondition.
pub weaken :
    {V : Type 0} {strong weak : Post V} {run : Run V}
    → Returns strong run
    → ((value : V) (final : Heap) → strong value final → weak value final)
    → Returns weak run
weaken (returns {value} {final} met) imply = returns (imply value final met)

-- The rule for a sequence of commands.
pub bind :
    {V W : Type 0} {mid : Post V} {post : Post W} {run : Run V} {k : V → Cmd W}
    → Returns mid run
    → ((value : V) (between : Heap) → mid value between → Returns post (k value between))
    → Returns post (and_then run k)
bind (returns {value} {final} met) continue = continue value final met
