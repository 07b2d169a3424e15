-- ===== src/Sockets/Framing.antt =====
-- Messages that are sent and then received, for `send_msg` and `recv_msg` of task06-sockets/src/utils.cpp.
use systems_programming_labs.Prelude.{
  ℕ, zero, suc, ◌-◌, ◌^◌, ◌≤◌, ◌<◌, ◌≡◌, refl, sym, ◌∙◌, ap, ap₂, true, false, some, [], ◌∷◌, ◌++◌,
  append_assoc, append-nil, ◌==◌, length, take, drop, length-append, length-drop, take-drop,
  take-within, drop-within, word_size, dec_lt, ◌⊎◌, inl, inr, arith,
}
use systems_programming_labs.Sockets.Wire.{
  Bytes, Message, Protobuf, Transport, htonl_bytes, ntohl, recv_loop, argument_or_zero, recv_msg,
  send_loop, send_msg,
}

-- A call succeeds, and moves between one byte and all that it is asked for; `recv` is asked for no more than
-- is on its way.
abbrev pub IsReliable : Transport → Type 0
IsReliable net =
    ((len sent : ℕ) → 0 < len → (n : ℕ) × (net.send len sent ≡ some n) × (0 < n) × (n ≤ len))
    × ((len ready : ℕ)
        → 0 < len
        → len ≤ ready
        → (n : ℕ) × (net.recv len ready ≡ some n) × (0 < n) × (n ≤ len))

-- A call that was given, or asked for, the four bytes of a size moved fewer.
abbrev pub Split : Transport → Type 0
Split net =
    ((sent n : ℕ) × (net.send 4 sent ≡ some n) × (n < 4))
    ⊎ ((ready n : ℕ) × (net.recv 4 ready ≡ some n) × (n < 4))

-- Protobuf reads back the messages of the four operations that it wrote, and writes few bytes for them.
abbrev pub ReadsBack : Protobuf → Type 0
ReadsBack pb =
    (operation argument : ℕ)
    → 1 ≤ operation
    → operation ≤ 4
    → argument < word_size
    → (length (pb.serialize (record { operation = operation; argument = some argument })) < 2 ^ 32)
      × (pb.parse (pb.serialize (record { operation = operation; argument = some argument }))
          ≡ some (record { operation = operation; argument = some argument }))

-- The bytes of a message on the connection.
unfoldable pub frame : Protobuf → ℕ → ℕ → Bytes
frame pb operation argument =
    let payload = pb.serialize (record { operation = operation; argument = some argument }) in
    htonl_bytes (length payload) ++ payload

ntohl-htonl_bytes : (n : ℕ) (rest : Bytes) → n < 2 ^ 32 → ntohl (htonl_bytes n ++ rest) ≡ n
unfolding ntohl htonl_bytes
ntohl-htonl_bytes n rest h = omega (arith, h)

send_loop-step :
    (net : Transport) (fuel n : ℕ) (payload stream : Bytes)
    → 0 < length payload
    → net.send (length payload) (length stream) ≡ some n
    → send_loop net (suc fuel) payload stream
      ≡ send_loop net fuel (drop n payload) (stream ++ take n payload)
unfolding send_loop
send_loop-step net fuel n payload stream some_byte is =
    let more : (length payload == 0) ≡ false = ground (arith, some_byte) in rw (more, is) refl

recv_loop-step :
    (net : Transport) (fuel n missing : ℕ) (stream buf : Bytes)
    → 0 < missing
    → net.recv missing (length stream) ≡ some n
    → recv_loop net (suc fuel) missing stream buf
      ≡ recv_loop net fuel (missing - n) (drop n stream) (buf ++ take n stream)
unfolding recv_loop
recv_loop-step net fuel n missing stream buf some_byte is =
    let more : (missing == 0) ≡ false = ground (arith, some_byte) in rw (more, is) refl

send_loop-all :
    (net : Transport) (reliable : IsReliable net) (fuel : ℕ) (payload stream : Bytes)
    → length payload ≤ fuel
    → send_loop net fuel payload stream ≡ (true, stream ++ payload)
unfolding send_loop
send_loop-all net reliable zero [] stream h = ap (λ v. (true, v)) (sym (append-nil stream))
send_loop-all net reliable zero (x ∷ xs) stream h = absurd (omega (arith, h))
send_loop-all net reliable (suc fuel) [] stream h = ap (λ v. (true, v)) (sym (append-nil stream))
send_loop-all net reliable (suc fuel) (x ∷ xs) stream h =
    let (n, is, some_byte, within) = reliable.0 (length (x ∷ xs)) (length stream) (omega arith) in
    let ih =
      send_loop-all net reliable fuel (drop n (x ∷ xs)) (stream ++ take n (x ∷ xs))
        (omega (arith, length-drop n (x ∷ xs), h, some_byte)) in
    let whole =
      append_assoc stream (take n (x ∷ xs)) (drop n (x ∷ xs))
      ∙ ap (λ v. stream ++ v) (take-drop n (x ∷ xs)) in
    send_loop-step net fuel n (x ∷ xs) stream (omega arith) is ∙ ih ∙ ap (λ v. (true, v)) whole

recv_loop-all :
    (net : Transport) (reliable : IsReliable net) (fuel : ℕ) (payload rest buf : Bytes)
    → length payload ≤ fuel
    → recv_loop net fuel (length payload) (payload ++ rest) buf ≡ (some (buf ++ payload), rest)
unfolding recv_loop
recv_loop-all net reliable zero [] rest buf h = ap (λ v. (some v, rest)) (sym (append-nil buf))
recv_loop-all net reliable zero (x ∷ xs) rest buf h = absurd (omega (arith, h))
recv_loop-all net reliable (suc fuel) [] rest buf h =
    ap (λ v. (some v, rest)) (sym (append-nil buf))
recv_loop-all net reliable (suc fuel) (x ∷ xs) rest buf h =
    let payload = x ∷ xs in
    let (n, is, some_byte, within) =
      reliable.1 (length payload) (length (payload ++ rest)) (omega arith)
        (omega (arith, length-append payload rest)) in
    let ih =
      recv_loop-all net reliable fuel (drop n payload) rest (buf ++ take n payload)
        (omega (arith, length-drop n payload, h, some_byte)) in
    let whole =
      append_assoc buf (take n payload) (drop n payload)
      ∙ ap (λ v. buf ++ v) (take-drop n payload) in
    let left : length payload - n ≡ length (drop n payload) =
      omega (arith, length-drop n payload) in
    recv_loop-step net fuel n (length payload) (payload ++ rest) buf (omega arith) is
    ∙ ap (λ m. recv_loop net fuel m (drop n (payload ++ rest)) (buf ++ take n (payload ++ rest)))
        left
    ∙ ap₂ (λ s b. recv_loop net fuel (length (drop n payload)) s (buf ++ b))
        (drop-within n payload rest within) (take-within n payload rest within)
    ∙ ih
    ∙ ap (λ v. (some v, rest)) whole

recv_msg-step :
    (pb : Protobuf) (net : Transport) (garbage stream : Bytes) (n size : ℕ) (payload rest : Bytes)
    (msg : Message)
    → net.recv 4 (length stream) ≡ some n
    → ntohl (take n stream ++ drop n garbage) ≡ size
    → recv_loop net size size (drop n stream) [] ≡ (some payload, rest)
    → pb.parse payload ≡ some msg
    → recv_msg pb net garbage stream ≡ (some (msg.operation, argument_or_zero msg.argument), rest)
unfolding recv_msg
recv_msg-step pb net garbage stream n size payload rest msg gets is loop parses =
    let whole = ap (λ m. recv_loop net m m (drop n stream) []) is ∙ loop in
    rw (recv_msg, gets, ap (λ v. v.0) whole, parses)
      (ap (λ v. (some (msg.operation, argument_or_zero msg.argument), v.1)) whole)

pub unless_split : {S A B : Type 0} → S ⊎ A → (A → S ⊎ B) → S ⊎ B
unless_split (inl split) next = inl split
unless_split (inr a) next = next a

module _ (pb : Protobuf) (net : Transport) (reliable : IsReliable net) where
  size_sent : (sent : ℕ) → Split net ⊎ (net.send 4 sent ≡ some 4)
  size_sent sent =
      let (n, is, some_byte, within) = reliable.0 4 sent (omega arith) in
      elim (dec_lt n 4) [
        | yes fewer ↦ inl (inl (sent, n, is, fewer))
        | no whole ↦ inr (is ∙ ap some (omega (arith, whole, within)))
      ]

  size_received : (ready : ℕ) → 4 ≤ ready → Split net ⊎ (net.recv 4 ready ≡ some 4)
  size_received ready enough =
      let (n, is, some_byte, within) = reliable.1 4 ready (omega arith) enough in
      elim (dec_lt n 4) [
        | yes fewer ↦ inl (inr (ready, n, is, fewer))
        | no whole ↦ inr (is ∙ ap some (omega (arith, whole, within)))
      ]

  pub send_msg-frame :
      (operation argument : ℕ) (stream : Bytes)
      → Split net
        ⊎ (send_msg pb net operation argument stream
            ≡ (true, stream ++ frame pb operation argument))
  unfolding send_msg frame htonl_bytes
  send_msg-frame operation argument stream =
      let payload = pb.serialize (record { operation = operation; argument = some argument }) in
      unless_split (size_sent (length stream)) λ whole. inr (
        rw (send_msg, whole)
          (send_loop-all net reliable (length payload) payload
              (stream ++ htonl_bytes (length payload)) (omega arith)
            ∙ ap (λ v. (true, v)) (append_assoc stream (htonl_bytes (length payload)) payload)))

  pub recv_msg-frame :
      (garbage : Bytes) (operation argument : ℕ) (rest : Bytes)
      → ReadsBack pb
      → 1 ≤ operation
      → operation ≤ 4
      → argument < word_size
      → Split net
        ⊎ (recv_msg pb net garbage (frame pb operation argument ++ rest)
            ≡ (some (operation, argument), rest))
  unfolding recv_msg frame htonl_bytes argument_or_zero
  recv_msg-frame garbage operation argument rest back low high small =
      let (short, parses) = back operation argument low high small in
      let payload = pb.serialize (record { operation = operation; argument = some argument }) in
      let loop = recv_loop-all net reliable (length payload) payload rest [] (omega arith) in
      unless_split (size_received (length (frame pb operation argument ++ rest)) (omega arith))
        λ whole. inr (
          recv_msg-step pb net garbage (frame pb operation argument ++ rest) 4 (length payload)
            payload rest _ whole (ntohl-htonl_bytes (length payload) (drop 4 garbage) short) loop
            parses)
