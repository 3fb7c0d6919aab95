-- ===== src/Relay/Arrived.antt =====
-- relay.py: what a member who joins gets: `_join`, the ready frame and `_flush_for_joined_agent`.
use mathlib.Core.List.{append_assoc}
use babeltower.Prelude.{
  ℕ, String, ◌≡◌, refl, ap, ◌∙◌, Option, none, some, false, List, [], ◌∷◌, ◌++◌, map, arith,
  if◌then◌else◌, string_eq, lookup, insert, lookup-insert, select, ◌!=◌,
}
use text.Mathlib.TextEquality.{eq_iff}
use babeltower.Models.{Session, Agent}
use babeltower.World.{World, SessionState, Object, envelope, ready}
use babeltower.Exec.{ok}
use babeltower.Clock.{Moment}
use babeltower.Crypto.{CryptoLib}
use babeltower.Relay.Sockets.{get_state, send_json, is_dead}
use babeltower.Relay.Messages.{
  others, buffer_of, or_nil, flush_from, flush_to, flush_for_joined_agent,
}
use babeltower.Relay.Join.{join, joined, set_default}
use babeltower.Relay.Hello.{flush_state, flush_joined, admit}
use babeltower.Relay.Delivered.{IsApart, is_dead-IsQuiet, join-KeepsBuffers, flush_buffer-sent}

-- What joining changes of the state, by the buffer that the member has.
with_default :
    (agent_id : String) (socket : ℕ) (s : SessionState) (o : Option (List Object)) → SessionState
with_default agent_id socket s o =
    set_default agent_id o (record s { sockets = insert agent_id socket s.sockets })

with_default-same :
    (agent_id : String) (socket : ℕ) (s : SessionState) (o : Option (List Object))
    → ((with_default agent_id socket s o).sockets ≡ insert agent_id socket s.sockets)
      × ((with_default agent_id socket s o).member_ids ≡ s.member_ids)
unfolding with_default
with_default-same agent_id socket s none = (refl, refl)
with_default-same agent_id socket s (some b) = (refl, refl)

buffer_of-with_default :
    (agent_id sender_id : String) (socket : ℕ) (s : SessionState) (o : Option (List Object))
    → lookup agent_id s.buffers ≡ o
    → buffer_of (with_default agent_id socket s o) sender_id ≡ buffer_of s sender_id
unfolding with_default
buffer_of-with_default agent_id sender_id socket s none e =
    ground (arith, lookup-insert agent_id sender_id [] s.buffers, e, eq_iff agent_id sender_id)
buffer_of-with_default agent_id sender_id socket s (some b) e = refl

pub joined_lem :
    (agent_id sender_id : String) (socket : ℕ) (s : SessionState)
    → (lookup agent_id (joined agent_id socket s).sockets ≡ some socket)
      × ((joined agent_id socket s).member_ids ≡ s.member_ids)
      × (buffer_of (joined agent_id socket s) sender_id ≡ buffer_of s sender_id)
unfolding joined with_default
joined_lem agent_id sender_id socket s =
    let same = with_default-same agent_id socket s (lookup agent_id s.buffers) in
    let here : lookup agent_id (insert agent_id socket s.sockets) ≡ some socket =
      lookup-insert agent_id agent_id socket s.sockets
      ∙ ap (λ t. if t then some socket else lookup agent_id s.sockets)
          ((eq_iff agent_id agent_id).1 refl) in
    (
      ap (lookup agent_id) same.0 ∙ here,
      same.1,
      buffer_of-with_default agent_id sender_id socket s (lookup agent_id s.buffers) refl,
    )

others-member_ids :
    (s t : SessionState) (id : String) → t.member_ids ≡ s.member_ids → others t id ≡ others s id
unfolding others
others-member_ids s t id e = ap (select (λ m. m != id)) e

-- A member whose socket is there gets what waits in the other member's buffer, in its order.
flush_for_joined_agent-sent :
    (agent_id sender_id : String) (socket : ℕ) (s : SessionState) (w : World)
    → lookup agent_id s.sockets ≡ some socket
    → others s agent_id ≡ sender_id ∷ []
    → is_dead socket w ≡ false
    → ((flush_for_joined_agent s agent_id w).0 ≡ ok tt)
      × ((flush_for_joined_agent s agent_id w).1.sent
          ≡ w.sent ++ map (λ o. (socket, envelope o)) (buffer_of s sender_id))
unfolding flush_for_joined_agent flush_to flush_from
flush_for_joined_agent-sent agent_id sender_id socket s w here from alive =
    let r = flush_buffer-sent s.session_id sender_id socket (buffer_of s sender_id) w alive in
    rw (here, from, r.0) (refl, r.1)

module _ (lib : CryptoLib) (from_isoformat : String → Moment) (row : Session) (member : Agent)
    (sender_id : String) (socket : ℕ) where
  -- A member who was away and joins gets the ready frame and then what waits, in its order.
  pub admit-sent :
      (now : ℕ) (s : SessionState) (w : World)
      → get_state row.id w ≡ some s
      → IsApart sender_id member.id s
      → is_dead socket w ≡ false
      → ((admit lib from_isoformat socket row.id now (some (row, member)) w).0
          ≡ ok (some member.id))
        × ((admit lib from_isoformat socket row.id now (some (row, member)) w).1.sent
            ≡ w.sent
              ++ (socket, ready row.id) ∷ map (λ o. (socket, envelope o)) (buffer_of s sender_id))
  unfolding admit send_json flush_joined flush_state get_state
  admit-sent now s w e a alive =
      let j = join-KeepsBuffers row member.id socket now s w e a.away in
      let v = (join socket row member.id now w).1 in
      let u = record v { sent = v.sent ++ (socket, ready row.id) ∷ [] } in
      let t = j.2.0 in
      let alive' = is_dead-IsQuiet {w = w} {v = v} socket j.1 alive in
      let k = joined_lem member.id sender_id socket s in
      let here : lookup member.id t.sockets ≡ some socket = ap (lookup member.id) j.2.2.0 ∙ k.0 in
      let from : others t member.id ≡ sender_id ∷ [] =
        others-member_ids s t member.id (j.2.2.2 ∙ k.1) ∙ a.senders in
      let waiting : buffer_of t sender_id ≡ buffer_of s sender_id =
        ap (λ b. or_nil (lookup sender_id b)) j.2.2.1 ∙ k.2 in
      let f = flush_for_joined_agent-sent member.id sender_id socket t u here from alive' in
      rw (j.0, alive', j.2.1, f.0)
        (
          refl,
          f.1
              ∙ ap (λ b. u.sent ++ map (λ o. (socket, envelope o)) b) waiting
              ∙ append_assoc v.sent ((socket, ready row.id) ∷ [])
                  (map (λ o. (socket, envelope o)) (buffer_of s sender_id))
              ∙ ap
                  (λ l.
                    l
                    ++ (socket, ready row.id)
                      ∷ map (λ o. (socket, envelope o)) (buffer_of s sender_id))
                  j.1.sent,
        )
