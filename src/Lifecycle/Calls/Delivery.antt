-- ===== src/Lifecycle/Calls/Delivery.antt =====
-- From the sender's frames to the recipient's websocket: a history of messages to a member who is
-- away, and the member's join. src/babeltower/relay.py.
use mathlib.Core.List.{append_assoc, append-nil}
use babeltower.Prelude.{
  ℕ, ◌+◌, ◌≤◌, ◌<◌, String, ◌≡◌, sym, ap, ◌∙◌, some, false, List, [], ◌∷◌, ◌++◌, map, arith, All,
  length, length-append,
}
use babeltower.Models.{Session, Agent}
use babeltower.World.{World, SessionState, Object, Frame, envelope, ready}
use babeltower.Exec.{ok, begin}
use babeltower.Clock.{Moment}
use babeltower.Relay.Sockets.{get_state, is_dead}
use babeltower.Relay.Messages.{message_cap, buffer_limit, stamped, buffer_of}
use babeltower.Relay.Hello.{admit}
use babeltower.Relay.Delivered.{
  IsQuiet, IsApart, IsMessage, held, held-IsApart, buffer_of-held, handle_frame-held,
  is_dead-IsQuiet,
}
use babeltower.Relay.Arrived.{admit-sent}
use babeltower.Lifecycle.Calls.{
  Services, Call, frame_for, on_disconnect, perform_in, perform, serve,
}

-- A frame that is sent, the object that it holds, and when.
pub record Posted : Type 0 where
  pub raw : String
  pub content : Object
  pub at : ℕ

-- The frames that a member's websocket is sent when the member joins.
abbrev pub arrival : String → ℕ → List Object → List (ℕ × Frame)
arrival session_id socket messages =
    (socket, ready session_id) ∷ map (λ o. (socket, envelope o)) messages

-- A history in which a member sends messages.
abbrev pub sends_all : String → String → ℕ → List Posted → List Call
sends_all session_id sender_id sender_socket posts =
    map (λ p. Call.sends session_id sender_id sender_socket p.raw p.at) posts

module _ (services : Services) (from_isoformat : String → Moment) (row : Session) (member : Agent)
    (sender_id : String) (sender_socket socket now : ℕ) where
  -- One message is held, by the state object that the history finds.
  perform-held :
      (p : Posted) (s : SessionState) (w : World)
      → get_state row.id w ≡ some s
      → IsApart sender_id member.id s
      → IsMessage services.json_loads s p.raw p.content
      → s.message_count < message_cap
      → length (buffer_of s sender_id) < buffer_limit
      → let v = perform services (Call.sends row.id sender_id sender_socket p.raw p.at) w in
        IsQuiet w v × (get_state row.id v ≡ some (held sender_id p.content p.at s))
  unfolding perform perform_in frame_for on_disconnect get_state
  perform-held p s w e a m below room =
      let h =
        handle_frame-held services.json_loads row.id sender_id member.id sender_socket p.raw
          p.content p.at s (begin w) e a m below room in
      rw (e, h.0)
        (
          record {
            sent = h.1.sent;
            dead = h.1.dead;
            hung_up = h.1.hung_up;
            disconnects = h.1.disconnects;
          },
          h.2,
        )

  -- The messages that a member sends while the other member is away wait, within the cap of fifty and
  -- the buffer of ten, and when the other member joins, at a live websocket, it is sent the ready
  -- frame, what has waited already and then these messages, stamped, each once and in their order.
  pub serve-IsDelivered :
      (posts : List Posted) (s : SessionState) (w : World)
      → get_state row.id w ≡ some s
      → IsApart sender_id member.id s
      → is_dead socket w ≡ false
      → All (λ p. IsMessage services.json_loads s p.raw p.content) posts
      → s.message_count + length posts ≤ message_cap
      → length (buffer_of s sender_id) + length posts ≤ buffer_limit
      → let joins =
          admit services.crypto from_isoformat socket row.id now
            (some (row, member))
            (serve services (sends_all row.id sender_id sender_socket posts) w) in
        (joins.0 ≡ ok (some member.id))
        × (joins.1.sent
            ≡ w.sent
              ++ arrival row.id socket
                  (buffer_of s sender_id ++ map (λ p. stamped s sender_id p.content) posts))
  unfolding serve stamped
  serve-IsDelivered [] s w e a alive m below room =
      let r =
        admit-sent services.crypto from_isoformat row member sender_id socket now s w e a alive in
      (
        r.0,
        r.1
            ∙ ap (λ b. w.sent ++ arrival row.id socket b)
                (sym (append-nil (buffer_of s sender_id))),
      )
  serve-IsDelivered (p ∷ posts) s w e a alive m below room =
      let h = perform-held p s w e a m.0 (omega arith) (omega arith) in
      let v = perform services (Call.sends row.id sender_id sender_socket p.raw p.at) w in
      let s' = held sender_id p.content p.at s in
      let b = buffer_of-held sender_id p.content p.at s in
      let r =
        serve-IsDelivered posts s' v h.1 (held-IsApart p.content p.at a)
          (is_dead-IsQuiet {w = w} {v = v} socket h.0 alive) m.1 (omega arith)
          (rw b (
            omega (
              arith,
              length-append (buffer_of s sender_id) (stamped s sender_id p.content ∷ []),
            ))) in
      let rest = map (λ (q : Posted). stamped s sender_id q.content) posts in
      let first = stamped s sender_id p.content ∷ [] in
      (
        r.0,
        r.1
            ∙ ap (λ l. v.sent ++ arrival row.id socket (l ++ rest)) b
            ∙ ap (λ l. l ++ arrival row.id socket ((buffer_of s sender_id ++ first) ++ rest))
                h.0.sent
            ∙ ap (λ l. w.sent ++ arrival row.id socket l)
                (append_assoc (buffer_of s sender_id) first rest),
      )
