-- ===== src/Relay/Bounds.antt =====
-- The bound on the messages of a session: `_handle_frame` of src/babeltower/relay.py.
use Prim.Native.Nat.{◌%◌}
use babeltower.Prelude.{
  ℕ, ◌+◌, ◌≤◌, String, ◌≡◌, refl, Option, none, some, Bool, true, false, ◌&&◌, List, [], ◌∷◌, arith,
  ap, All, All-update_row, inl, inr, Bool-cases, ◌==◌, nat_eq, string_eq, lookup, len, length, leb,
  ltb, if◌then◌else◌,
}
use babeltower.World.{World, SessionState, Frame, Object, envelope}
use babeltower.Exec.{Exec, Result, ok, err, ◌>>=◌, continue, when}
use babeltower.Relay.Sockets.{get_state, on_state, send_json, is_dead}
use babeltower.Relay.Persist.{persist_closed, persist_message_count}
use babeltower.Relay.End.{
  Caller, handler, cancels_caller, mark_closed, ended_event, hang_up_all, finish, end_open,
  end_state, end_session,
}
use babeltower.Relay.Ended.{hang_up_all-ok, metered-states, marked, end_open-cases}
use babeltower.Relay.Messages.{
  Parsed, bad_json, scalar, sequence, object, message_cap, max_frame_bytes, buffer_limit, buffer_of,
  differs, hold, pass_on, deliver, counted, count_relayed, stamped, others, relay_message,
  under_lock, handle_object, handle_parsed, handle_frame,
}

-- No session in memory has counted more messages than the cap.
abbrev pub IsBounded : World → Type 0
IsBounded w = All (λ s. s.message_count ≤ message_cap) w.states

abbrev Bounded : {A : Type 0} → Result A × World → Type 0
Bounded p = IsBounded p.1

on_state-Bounded :
    (id : String) (f : SessionState → SessionState) (w : World)
    → ((s : SessionState)
        → get_state id w ≡ some s
        → s.message_count ≤ message_cap
        → (f s).message_count ≤ message_cap)
    → IsBounded w
    → Bounded (on_state id f w)
unfolding on_state get_state
on_state-Bounded id f w k h =
    All-update_row (λ s. s.message_count ≤ message_cap) (λ s. s.session_id == id) f w.states k h

send_json-Bounded :
    (socket : ℕ) (frame : Frame) (w : World) → IsBounded w → Bounded (send_json socket frame w)
unfolding send_json
send_json-Bounded socket frame w h = elim (Bool-cases (is_dead socket w)) [
  | inl t ↦ rw t h
  | inr t ↦ rw t h
]

bind-Bounded :
    {A B : Type 0} (m : Exec A) (k : A → Exec B) (w : World)
    → Bounded (m w)
    → ((a : A) (v : World) → IsBounded v → Bounded (k a v))
    → Bounded ((m >>= k) w)
bind-Bounded m k w h f = go (m w) h
  where
    go : (p : Result _ × World) → Bounded p → Bounded (continue p.0 k p.1)
    go (ok a, v) g = f a v g
    go (err e, v) g = g

if-Bounded :
    {A : Type 0} (b : Bool) (m n : Exec A) (w : World)
    → (b ≡ true → Bounded (m w))
    → (b ≡ false → Bounded (n w))
    → Bounded ((if b then m else n) w)
if-Bounded true m n w f g = f refl
if-Bounded false m n w f g = g refl

module _ (agent_id : String) (socket : ℕ) where
  deliver-Bounded :
      (s : SessionState) (o : Object) (rs : List String) (w : World)
      → IsBounded w
      → Bounded (deliver s agent_id socket o rs w)
  unfolding deliver pass_on hold
  deliver-Bounded s o [] w h = h
  deliver-Bounded s o (r ∷ rest) w h =
      bind-Bounded (pass_on s agent_id socket o (lookup r s.sockets)) _ w (one (lookup r s.sockets))
        (λ a v g. deliver-Bounded s o rest v g)
    where
      one : (found : Option ℕ) → Bounded (pass_on s agent_id socket o found w)
      one none =
          if-Bounded (leb buffer_limit (length (buffer_of s agent_id))) _ _ w
            (λ _. send_json-Bounded socket _ w h)
            (λ _. on_state-Bounded s.session_id _ w (λ t e k. k) h)
      one (some recipient) = send_json-Bounded recipient (envelope o) w h

persist_closed-Bounded :
    (id reason : String) (n : Option ℕ) (now : ℕ) (w : World)
    → IsBounded w
    → Bounded (persist_closed id reason n now w)
unfolding persist_closed
persist_closed-Bounded id reason n now w h = h

finish-Bounded :
    (id reason : String) (s : SessionState) (now : ℕ) (w : World)
    → IsBounded w
    → Bounded (finish id reason s now w)
unfolding finish
finish-Bounded id reason s now w h =
    bind-Bounded (persist_closed id reason (some s.message_count) now) _ w
      (persist_closed-Bounded id reason (some s.message_count) now w h)
      λ a v g.
        bind-Bounded (hang_up_all (ended_event id reason) s.sockets) _ v
          (rw (hang_up_all-ok (ended_event id reason) s.sockets v).1 g)
          λ b u k. on_state-Bounded id _ u (λ t e l. l) k

marked-Bounded :
    (id : String) (s : SessionState) (w : World) → IsBounded w → IsBounded (marked id s w)
marked-Bounded id s w h =
    rw (metered-states s.active_metric_counted (on_state id mark_closed w).1)
      (on_state-Bounded id mark_closed w (λ t e k. k) h)

-- Ending a session keeps the bound.
pub end_session-Bounded :
    (caller : Caller) (id reason : String) (now : ℕ) (w : World)
    → IsBounded w
    → Bounded (end_session caller id reason now w)
unfolding end_session end_state
end_session-Bounded caller id reason now w h = go (get_state id w)
  where
    opened : (s : SessionState) → Bounded (end_open caller id reason s now w)
    opened s =
        rw (end_open-cases caller id reason s now w)
          (elim (Bool-cases (cancels_caller caller s && w.db_suspends)) [
            | inl t ↦ rw t (marked-Bounded id s w h)
            | inr t ↦
                rw t (finish-Bounded id reason s now (marked id s w) (marked-Bounded id s w h))
          ])

    go : (o : Option SessionState) → Bounded (end_state caller id reason now o w)
    go none = persist_closed-Bounded id reason none now w h
    go (some s) = if-Bounded s.closed _ _ w (λ _. h) (λ _. opened s)

count_relayed-Bounded : (w : World) → IsBounded w → Bounded (count_relayed w)
unfolding count_relayed
count_relayed-Bounded w h = h

module _ (s : SessionState) (agent_id : String) (socket now : ℕ) where
  relay_message-Bounded :
      (o : Object) (w : World)
      → get_state s.session_id w ≡ some s
      → leb message_cap s.message_count ≡ false
      → IsBounded w
      → Bounded (relay_message s agent_id socket o now w)
  unfolding relay_message persist_message_count
  relay_message-Bounded o w e room h =
      bind-Bounded (on_state s.session_id (counted now)) _ w
        (on_state-Bounded s.session_id (counted now) w more h)
        λ a v g.
          bind-Bounded
            (when ((s.message_count + 1) % 10 == 0)
              (persist_message_count s.session_id (s.message_count + 1)))
            _ v (persisted ((s.message_count + 1) % 10 == 0) v g)
            λ b u k. bind-Bounded count_relayed _ u (count_relayed-Bounded u k) λ c t l.
              deliver-Bounded agent_id socket (counted now s) (stamped s agent_id o)
                (others s agent_id) t l
    where
      more :
          (t : SessionState)
          → get_state s.session_id w ≡ some t
          → t.message_count ≤ message_cap
          → t.message_count + 1 ≤ message_cap
      more t f k =
          let same : s ≡ t = cc in
          ground (arith, room, ap (λ (x : SessionState). x.message_count) same)

      persisted :
          (b : Bool) (v : World)
          → IsBounded v
          → Bounded (when b (persist_message_count s.session_id (s.message_count + 1)) v)
      persisted true v g = g
      persisted false v g = g

  under_lock-Bounded :
      (o : Object) (w : World)
      → get_state s.session_id w ≡ some s
      → IsBounded w
      → Bounded (under_lock s agent_id socket o now w)
  unfolding under_lock
  under_lock-Bounded o w e h =
      if-Bounded s.closed _ _ w (λ _. send_json-Bounded socket _ w h)
        λ _.
          if-Bounded (leb message_cap s.message_count) _ _ w
            (λ _. end_session-Bounded handler s.session_id "message_cap_reached" now w h)
            (λ room. relay_message-Bounded o w e room h)

  handle_parsed-Bounded :
      (p : Parsed) (w : World)
      → get_state s.session_id w ≡ some s
      → IsBounded w
      → Bounded (handle_parsed s agent_id socket p now w)
  unfolding handle_parsed handle_object
  handle_parsed-Bounded bad_json w e h = send_json-Bounded socket _ w h
  handle_parsed-Bounded scalar w e h = h
  handle_parsed-Bounded (sequence items) w e h = h
  handle_parsed-Bounded (object o) w e h =
      if-Bounded (differs o "type" "message") _ _ w (λ _. send_json-Bounded socket _ w h)
        λ _.
          if-Bounded (differs o "session_id" s.session_id) _ _ w
            (λ _. send_json-Bounded socket _ w h) λ _. under_lock-Bounded o w e h

  -- Where no session in memory has counted more than fifty messages, none has after a frame of any
  -- content to one of the sessions, by whichever agent.
  pub handle_frame-IsBounded :
      (json_loads : String → Parsed) (raw : String) (w : World)
      → get_state s.session_id w ≡ some s
      → IsBounded w
      → IsBounded (handle_frame json_loads s agent_id socket raw now w).1
  unfolding handle_frame
  handle_frame-IsBounded json_loads raw w e h =
      if-Bounded (ltb max_frame_bytes (len raw)) _ _ w (λ _. send_json-Bounded socket _ w h)
        λ _. handle_parsed-Bounded (json_loads raw) w e h
