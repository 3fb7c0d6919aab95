-- ===== src/Relay/Delivered.antt =====
-- relay.py: the messages for a member who is away, the buffer of the sender and the member's join: `_handle_frame`, `_join` and `_flush_for_joined_agent`.
use Prim.Native.Nat.{◌%◌}
use mathlib.Core.List.{append_assoc, append-nil}
use babeltower.Prelude.{
  ℕ, ◌+◌, ◌≤◌, ◌<◌, String, ◌≡◌, refl, sym, ap, subst, ◌∙◌, none, some, Bool, true, false, List, [],
  ◌∷◌, ◌++◌, map, inl, inr, arith, Bool-cases, if◌then◌else◌, ◌==◌, nat_eq, string_eq, leb, ltb,
  len, length, find_sound, find-update_row, update_row, lookup, lookup-insert, is_none, ◌&&◌,
}
use text.Mathlib.TextEquality.{eq_iff}
use babeltower.Models.{Session}
use babeltower.World.{World, SessionState, Object, envelope}
use babeltower.Exec.{Exec, ok}
use babeltower.Relay.Sockets.{get_state, on_state, send_json, is_dead}
use babeltower.Relay.Persist.{persist_message_count, set_session_active}
use babeltower.Relay.Messages.{
  Parsed, object, message_cap, max_frame_bytes, buffer_limit, differs, stamped, others, buffer_of,
  or_nil, set_buffer, hold, pass_on, deliver, counted, count_relayed, relay_message, under_lock,
  handle_object, handle_parsed, handle_frame, flush_buffer,
}
use babeltower.Relay.Join.{
  join, joined, ensure_state, state_or_new, replace_socket, start_if_joined, all_joined,
  became_active, count_active,
}

-- The relay has sent nothing and closed nothing between two worlds.
pub record IsQuiet (w v : World) : Type 0 where
  pub sent : v.sent ≡ w.sent
  pub dead : v.dead ≡ w.dead
  pub hung_up : v.hung_up ≡ w.hung_up
  pub disconnects : v.disconnects ≡ w.disconnects

pub is_dead-IsQuiet :
    {w v : World} (socket : ℕ) → IsQuiet w v → is_dead socket w ≡ false → is_dead socket v ≡ false
unfolding is_dead
is_dead-IsQuiet {w} {v} socket q h = rw (q.dead, q.hung_up) h

-- The state object of a session after a change that keeps its id.
on_state-get_state :
    (id : String) (s : SessionState) (f : SessionState → SessionState) (w : World)
    → ((y : SessionState) → (f y).session_id ≡ y.session_id)
    → get_state id w ≡ some s
    → get_state id (on_state s.session_id f w).1 ≡ some (f s)
unfolding get_state on_state
on_state-get_state id s f w k e =
    let p = λ (x : SessionState). x.session_id == id in
    let same : s.session_id ≡ id = (eq_iff s.session_id id).0 (find_sound p w.states e) in
    subst (λ j. get_state id (on_state j f w).1 ≡ some (f s)) (sym same)
      (find-update_row p f w.states (λ y t. ap (λ j. j == id) (k y) ∙ t) e)

-- A message of the sender waits behind those that wait already.
abbrev pub held : String → Object → ℕ → SessionState → SessionState
held agent_id o now s =
    set_buffer agent_id (buffer_of s agent_id ++ stamped s agent_id o ∷ []) (counted now s)

pub relay_message-held :
    (id agent_id away_id : String) (socket : ℕ) (o : Object) (now : ℕ) (s : SessionState)
    (w : World)
    → get_state id w ≡ some s
    → others s agent_id ≡ away_id ∷ []
    → lookup away_id s.sockets ≡ none
    → length (buffer_of s agent_id) < buffer_limit
    → ((relay_message s agent_id socket o now w).0 ≡ ok tt)
      × IsQuiet w (relay_message s agent_id socket o now w).1
      × (get_state id (relay_message s agent_id socket o now w).1 ≡ some (held agent_id o now s))
unfolding relay_message deliver pass_on hold on_state get_state persist_message_count count_relayed
relay_message-held id agent_id away_id socket o now s w e to away room =
    let full : leb buffer_limit (length (buffer_of s agent_id)) ≡ false = ground (arith, room) in
    let put = set_buffer agent_id (buffer_of s agent_id ++ stamped s agent_id o ∷ []) in
    let one = on_state-get_state id s (counted now) w (λ y. refl) e in
    let two =
      on_state-get_state id (counted now s) put (on_state s.session_id (counted now) w).1
        (λ y. refl) one in
    elim (Bool-cases ((s.message_count + 1) % 10 == 0)) [
      | inl t ↦
          rw (to, away, full, t)
            (refl, record { sent = refl; dead = refl; hung_up = refl; disconnects = refl }, two)
      | inr t ↦
          rw (to, away, full, t)
            (refl, record { sent = refl; dead = refl; hung_up = refl; disconnects = refl }, two)
    ]

-- A frame that is a message of this session and small enough.
abbrev pub IsMessage : (String → Parsed) → SessionState → String → Object → Type 0
IsMessage json_loads s raw o =
    (len raw ≤ max_frame_bytes)
    × (json_loads raw ≡ object o)
    × (differs o "type" "message" ≡ false)
    × (differs o "session_id" s.session_id ≡ false)

-- A session that is open, with two members, of whom one is away.
pub record IsApart (agent_id away_id : String) (s : SessionState) : Type 0 where
  pub is_open : s.closed ≡ false
  pub away : lookup away_id s.sockets ≡ none
  pub recipients : others s agent_id ≡ away_id ∷ []
  pub senders : others s away_id ≡ agent_id ∷ []

pub held-IsApart :
    {agent_id away_id : String} {s : SessionState} (o : Object) (now : ℕ)
    → IsApart agent_id away_id s
    → IsApart agent_id away_id (held agent_id o now s)
unfolding others
held-IsApart o now a = record {
  is_open = a.is_open;
  away = a.away;
  recipients = a.recipients;
  senders = a.senders;
}

pub buffer_of-held :
    (agent_id : String) (o : Object) (now : ℕ) (s : SessionState)
    → buffer_of (held agent_id o now s) agent_id ≡ buffer_of s agent_id ++ stamped s agent_id o ∷ []
buffer_of-held agent_id o now s =
    let b = buffer_of s agent_id ++ stamped s agent_id o ∷ [] in
    ap or_nil (
      lookup-insert agent_id agent_id b s.buffers
      ∙ ap (λ t. if t then some b else lookup agent_id s.buffers)
          ((eq_iff agent_id agent_id).1 refl))

-- A branch that is not taken.
if-run_false :
    (b : Bool) (m n : Exec (Unit {0})) (w : World) → b ≡ false → (if b then m else n) w ≡ n w
if-run_false true m n w h = cc
if-run_false false m n w h = refl

handle_frame-relay_message :
    (json_loads : String → Parsed) (agent_id : String) (socket : ℕ) (raw : String) (o : Object)
    (now : ℕ) (s : SessionState) (w : World)
    → s.closed ≡ false
    → IsMessage json_loads s raw o
    → s.message_count < message_cap
    → handle_frame json_loads s agent_id socket raw now w ≡ relay_message s agent_id socket o now w
unfolding handle_frame handle_parsed handle_object under_lock
handle_frame-relay_message json_loads agent_id socket raw o now s w open_state m below =
    if-run_false (ltb max_frame_bytes (len raw)) _ _ w (ground (arith, m.0))
    ∙ ap (λ p. handle_parsed s agent_id socket p now w) m.1
    ∙ if-run_false (differs o "type" "message") _ _ w m.2
    ∙ if-run_false (differs o "session_id" s.session_id) _ _ w m.3
    ∙ if-run_false s.closed _ _ w open_state
    ∙ if-run_false (leb message_cap s.message_count) _ _ w (ground (arith, below))

-- A message for a member who is away waits, and nothing is sent.
pub handle_frame-held :
    (json_loads : String → Parsed) (id agent_id away_id : String) (socket : ℕ) (raw : String)
    (o : Object) (now : ℕ) (s : SessionState) (w : World)
    → get_state id w ≡ some s
    → IsApart agent_id away_id s
    → IsMessage json_loads s raw o
    → s.message_count < message_cap
    → length (buffer_of s agent_id) < buffer_limit
    → ((handle_frame json_loads s agent_id socket raw now w).0 ≡ ok tt)
      × IsQuiet w (handle_frame json_loads s agent_id socket raw now w).1
      × (get_state id (handle_frame json_loads s agent_id socket raw now w).1
          ≡ some (held agent_id o now s))
handle_frame-held json_loads id agent_id away_id socket raw o now s w e a m below room =
    rw (handle_frame-relay_message json_loads agent_id socket raw o now s w a.is_open m below)
      (relay_message-held id agent_id away_id socket o now s w e a.recipients a.away room)

-- The whole buffer is sent, in its order.
pub flush_buffer-sent :
    (session_id sender_id : String) (socket : ℕ) (b : List Object) (w : World)
    → is_dead socket w ≡ false
    → ((flush_buffer session_id sender_id socket b w).0 ≡ ok tt)
      × ((flush_buffer session_id sender_id socket b w).1.sent
          ≡ w.sent ++ map (λ o. (socket, envelope o)) b)
unfolding flush_buffer on_state send_json is_dead
flush_buffer-sent session_id sender_id socket [] w h = (refl, sym (append-nil w.sent))
flush_buffer-sent session_id sender_id socket (o ∷ rest) w h =
    let v = record (on_state session_id (set_buffer sender_id rest) w).1 {
      sent = w.sent ++ (socket, envelope o) ∷ [];
    } in
    let r = flush_buffer-sent session_id sender_id socket rest v h in
    rw h (
      r.0,
      r.1 ∙ append_assoc w.sent ((socket, envelope o) ∷ []) (map (λ x. (socket, envelope x)) rest),
    )

-- The state after a member has joined, whether the session has become active with it or not.
abbrev pub KeepsBuffers : SessionState → SessionState → Type 0
KeepsBuffers s t = (t.sockets ≡ s.sockets) × (t.buffers ≡ s.buffers) × (t.member_ids ≡ s.member_ids)

start_if_joined-KeepsBuffers :
    (id : String) (s : SessionState) (now : ℕ) (w : World)
    → get_state id w ≡ some s
    → ((start_if_joined s now w).0 ≡ ok tt)
      × IsQuiet w (start_if_joined s now w).1
      × ((t : SessionState) × (get_state id (start_if_joined s now w).1 ≡ some t)
          × KeepsBuffers s t)
unfolding start_if_joined set_session_active count_active on_state get_state
start_if_joined-KeepsBuffers id s now w e =
    elim (Bool-cases (all_joined s.member_ids s.sockets && is_none s.active_at)) [
      | inl t ↦
          let next = on_state-get_state id s (became_active now) w (λ y. refl) e in
          rw t (
            refl,
            record { sent = refl; dead = refl; hung_up = refl; disconnects = refl },
            (became_active now s, next, (refl, refl, refl)),
          )
      | inr t ↦ rw t (
        refl,
        record { sent = refl; dead = refl; hung_up = refl; disconnects = refl },
        (s, e, (refl, refl, refl)),
      )
    ]

joined-session_id :
    (agent_id : String) (socket : ℕ) (s : SessionState)
    → (joined agent_id socket s).session_id ≡ s.session_id
unfolding joined lookup
joined-session_id agent_id socket s = ground arith

pub join-KeepsBuffers :
    (row : Session) (agent_id : String) (socket now : ℕ) (s : SessionState) (w : World)
    → get_state row.id w ≡ some s
    → lookup agent_id s.sockets ≡ none
    → ((join socket row agent_id now w).0 ≡ ok tt)
      × IsQuiet w (join socket row agent_id now w).1
      × ((t : SessionState) × (get_state row.id (join socket row agent_id now w).1 ≡ some t)
          × KeepsBuffers (joined agent_id socket s) t)
unfolding join ensure_state state_or_new replace_socket on_state get_state
join-KeepsBuffers row agent_id socket now s w e away =
    let p = λ (x : SessionState). x.session_id == row.id in
    let f = joined agent_id socket in
    let v = record w { states = update_row p f w.states } in
    let found : get_state row.id v ≡ some (f s) =
      find-update_row p f w.states
        (λ y t. ap (λ j. j == row.id) (joined-session_id agent_id socket y) ∙ t) e in
    let r = start_if_joined-KeepsBuffers row.id (f s) now v found in
    rw (e, away)
      (
        r.0,
        record {
          sent = r.1.sent;
          dead = r.1.dead;
          hung_up = r.1.hung_up;
          disconnects = r.1.disconnects;
        },
        r.2,
      )
