-- ===== src/Relay/Lost.antt =====
-- relay.py: a socket that is gone when its member joins. `handle_websocket` sends the ready frame before
-- the `try` that disconnects.
use babeltower.Prelude.{
  ℕ, String, ◌≡◌, refl, ap, ◌∙◌, none, some, true, string_eq, nat_eq, if◌then◌else◌, contains,
  lookup,
}
use babeltower.Models.{Session, Agent}
use babeltower.World.{World, SessionState}
use babeltower.Exec.{err, runtime_error, websocket_disconnect}
use babeltower.Clock.{Moment}
use babeltower.Crypto.{CryptoLib}
use babeltower.Relay.Sockets.{get_state, send_json, is_dead}
use babeltower.Relay.Join.{join}
use babeltower.Relay.Hello.{admit}
use babeltower.Relay.Delivered.{IsQuiet, join-KeepsBuffers}
use babeltower.Relay.Arrived.{joined_lem}

-- The relay goes on to hold a socket of the agent that is gone.
abbrev pub HoldsDead : String → String → ℕ → World → Type 0
HoldsDead session_id agent_id socket w =
    (is_dead socket w ≡ true)
    × ((t : SessionState) × (get_state session_id w ≡ some t)
        × (lookup agent_id t.sockets ≡ some socket))

dead-IsQuiet :
    (socket : ℕ) (w v : World) → IsQuiet w v → is_dead socket w ≡ true → is_dead socket v ≡ true
unfolding is_dead
dead-IsQuiet socket w v q h = rw (q.dead, q.hung_up) h

-- Where the socket of a member who was away is gone by the time that the ready frame is sent, the
-- handler of the websocket raises what the send raised, and the relay's state holds the dead socket
-- as the member's.
pub admit-HoldsDead :
    (lib : CryptoLib) (from_isoformat : String → Moment) (row : Session) (member : Agent)
    (socket now : ℕ) (s : SessionState) (w : World)
    → get_state row.id w ≡ some s
    → lookup member.id s.sockets ≡ none
    → is_dead socket w ≡ true
    → let p = admit lib from_isoformat socket row.id now (some (row, member)) w in
      (p.0 ≡ err (if contains socket w.disconnects then websocket_disconnect else runtime_error))
      × HoldsDead row.id member.id socket p.1
unfolding admit send_json
admit-HoldsDead lib from_isoformat row member socket now s w e away gone =
    let j = join-KeepsBuffers row member.id socket now s w e away in
    let v = (join socket row member.id now w).1 in
    let gone' = dead-IsQuiet socket w v j.1 gone in
    let here = ap (lookup member.id) j.2.2.0 ∙ (joined_lem member.id member.id socket s).0 in
    rw (j.0, gone', j.1.disconnects) (refl, (gone', (j.2.0, j.2.1, here)))
