-- ===== src/Tunnel/Reading.antt =====
-- The loop of `tunnel_once` in client.rs that reads the head of the answer, one byte at a time.
use lager_rs.Prelude.{
  ℕ, ◌+◌, ◌-◌, ◌*◌, ◌≤◌, ◌≡◌, sym, ap, append-nil, ◌&&◌, length-append, ◌∙◌, Bool, true, false, not,
  List, [], ◌∷◌, ◌++◌, map, append_assoc, Bytes, str, length, drop, leb, text_eq, if◌then◌else◌,
  arith,
}
use lager_rs.Tunnel.Refusal.{SocketError}

-- What one read of one byte comes to; `got` is a byte, `closed` the end of the stream.
pub data Event : Type 0 where
  got : ℕ → Event
  closed : Event
  retry : Event
  failed : SocketError → Event

abbrev pub max_head_bytes : ℕ
max_head_bytes = 64 * 1024

abbrev pub blank_line : Bytes
blank_line = str "\r\n\r\n"

-- `head.ends_with(b"\r\n\r\n")`
abbrev pub ends_head : Bytes → Bool
ends_head head = text_eq (drop (length head - 4) head) blank_line

-- How the loop ends: with a head and what is left to read, without one, or with an error.
pub data HeadRead : Type 0 where
  complete : Bytes → List Event → HeadRead
  no_head : HeadRead
  broken : SocketError → HeadRead

-- The events that are left when the head is complete stay in the socket. An interrupted read is
-- taken again. When the events end, the peer has hung up.
unfoldable pub read_head : Bytes → List Event → HeadRead
read_head head [] = if ends_head head then complete head [] else no_head
read_head head (e ∷ events) =
    let more : HeadRead = elim e [
      | got b ↦ read_head (head ++ b ∷ []) events
      | closed ↦ no_head
      | retry ↦ read_head head events
      | failed error ↦ broken error
    ] in
    if ends_head head
    then complete head (e ∷ events)
    else if leb max_head_bytes (length head)
    then no_head
    else more

-- The bytes complete the head with the last of them, and not before.
abbrev pub ends_first : Bytes → Bytes → Bool
ends_first head [] = ends_head head
ends_first head (b ∷ bytes) = not (ends_head head) && ends_first (head ++ b ∷ []) bytes

complete_now :
    (head : Bytes) (events : List Event)
    → ends_head head ≡ true
    → read_head head events ≡ complete head events
unfolding read_head
complete_now head [] h = rw h
complete_now head (e ∷ events) h = rw h

read_head-from :
    (head bytes : Bytes) (events : List Event)
    → ends_first head bytes ≡ true
    → length head + length bytes ≤ max_head_bytes
    → read_head head (map got bytes ++ events) ≡ complete (head ++ bytes) events
unfolding read_head
read_head-from head [] events h k =
    complete_now head events h ∙ ap (λ x. complete x events) (sym (append-nil head))
read_head-from head (b ∷ bytes) events h k =
    let open_yet : ends_head head ≡ false = ground arith in
    let room : leb max_head_bytes (length head) ≡ false = ground arith in
    rw open_yet (
      rw room (
        read_head-from (head ++ b ∷ []) bytes events (ground arith)
          (omega (arith, length-append head (b ∷ [])))
        ∙ ap (λ x. complete x events) (append_assoc head (b ∷ []) bytes)))

-- When the head of the answer is at most 64 KiB and its blank line stands at its end and not
-- before, the loop takes the head out of the socket and not one byte more: what a debug server
-- sends behind it is left for the tunnel.
pub read_head-exact :
    (head : Bytes) (events : List Event)
    → ends_first [] head ≡ true
    → length head ≤ max_head_bytes
    → read_head [] (map got head ++ events) ≡ complete head events
read_head-exact head events h k = read_head-from [] head events h (omega arith)
