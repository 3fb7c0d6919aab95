-- ===== src/Lifecycle/Relaying.antt =====
-- Frames and joins keep the lifecycle: src/babeltower/relay.py.
use Prim.Native.Nat.{◌%◌}
use Prim.Native.String.{len}
use babeltower.Prelude.{
  ℕ, ◌+◌, String, refl, Bool, true, false, ◌&&◌, ◌==◌, nat_eq, leb, ltb, lookup, is_none,
}
use babeltower.Models.{Session, session_status_eq}
use babeltower.World.{World, SessionState, Object}
use babeltower.Exec.{when}
use babeltower.Relay.Sockets.{on_state}
use babeltower.Relay.Persist.{set_session_active, persist_message_count}
use babeltower.Relay.End.{handler}
use babeltower.Relay.Messages.{
  Parsed, bad_json, scalar, sequence, object, relay_message, under_lock, handle_object,
  handle_parsed, handle_frame, differs, message_cap, max_frame_bytes, counted, stamped, others,
  count_relayed,
}
use babeltower.Relay.Join.{
  join, ensure_state, replace_socket, joined, start_if_joined, all_joined, became_active,
  count_active,
}
use babeltower.Lifecycle.Sound.{Fits, After, After-stay, After-bind, After-if_run}
use babeltower.Lifecycle.Ending.{
  persist_message_count-After, set_session_active-After, end_session-After,
}
use babeltower.Lifecycle.Silent.{
  After-Silent, Silent, on_state-Silent, send_json-Silent, deliver-Silent, ensure_state-Silent,
  replace_socket-Silent,
}

count_relayed-Silent : (w : World) → Silent w (count_relayed w)
unfolding count_relayed
count_relayed-Silent w = record { same = record { store = refl; work = refl } }

count_active-Silent : (w : World) → Silent w (count_active w)
unfolding count_active
count_active-Silent w = record { same = record { store = refl; work = refl } }

module _ (s : SessionState) (id : String) (socket : ℕ) (now : ℕ) where
  relay_message-After :
      (o : Object) (w : World) → Fits w → After w (relay_message s id socket o now w)
  unfolding relay_message
  relay_message-After o w f =
      After-bind (on_state s.session_id (counted now)) _ w
        (After-Silent _ (on_state-Silent s.session_id (counted now) w) f)
        λ a v g.
          After-bind
            (when ((s.message_count + 1) % 10 == 0)
              (persist_message_count s.session_id (s.message_count + 1)))
            _ v (persist-After ((s.message_count + 1) % 10 == 0) v g)
            λ b u h.
              After-bind count_relayed _ u (After-Silent _ (count_relayed-Silent u) h) λ c t k.
                After-Silent _
                  (deliver-Silent (counted now s) id socket (stamped s id o) (others s id) t) k
    where
      persist-After :
          (b : Bool) (v : World)
          → Fits v
          → After v (when b (persist_message_count s.session_id (s.message_count + 1)) v)
      persist-After true v g = persist_message_count-After s.session_id _ v g
      persist-After false v g = After-stay _ g

  under_lock-After : (o : Object) (w : World) → Fits w → After w (under_lock s id socket o now w)
  unfolding under_lock
  under_lock-After o w f =
      After-if_run w w s.closed _ _ (λ _. After-Silent _ (send_json-Silent socket _ w) f)
        λ _.
          After-if_run w w (leb message_cap s.message_count) _ _
            (λ _. end_session-After handler s.session_id "message_cap_reached" now w f)
            (λ _. relay_message-After o w f)

  handle_object-After :
      (o : Object) (w : World) → Fits w → After w (handle_object s id socket o now w)
  unfolding handle_object
  handle_object-After o w f =
      After-if_run w w (differs o "type" "message") _ _
        (λ _. After-Silent _ (send_json-Silent socket _ w) f)
        λ _.
          After-if_run w w (differs o "session_id" s.session_id) _ _
            (λ _. After-Silent _ (send_json-Silent socket _ w) f) (λ _. under_lock-After o w f)

  handle_parsed-After :
      (p : Parsed) (w : World) → Fits w → After w (handle_parsed s id socket p now w)
  unfolding handle_parsed
  handle_parsed-After bad_json w f = After-Silent _ (send_json-Silent socket _ w) f
  handle_parsed-After scalar w f = After-stay _ f
  handle_parsed-After (sequence items) w f = After-stay _ f
  handle_parsed-After (object o) w f = handle_object-After o w f

  pub handle_frame-After :
      (json_loads : String → Parsed) (raw : String) (w : World)
      → Fits w
      → After w (handle_frame json_loads s id socket raw now w)
  unfolding handle_frame
  handle_frame-After json_loads raw w f =
      After-if_run w w (ltb max_frame_bytes (len raw)) _ _
        (λ _. After-Silent _ (send_json-Silent socket _ w) f)
        (λ _. handle_parsed-After (json_loads raw) w f)

start_if_joined-After :
    (s : SessionState) (now : ℕ) (w : World) → Fits w → After w (start_if_joined s now w)
unfolding start_if_joined
start_if_joined-After s now w f =
    After-if_run w w (all_joined s.member_ids s.sockets && is_none s.active_at) _ _
      (λ _.
        After-bind (set_session_active s.session_id now) _ w
          (set_session_active-After s.session_id now w f)
          (λ a v g.
            After-bind count_active _ v (After-Silent _ (count_active-Silent v) g)
              λ b u h. After-Silent _ (on_state-Silent s.session_id (became_active now) u) h))
      (λ _. After-stay _ f)

pub join-After :
    (socket : ℕ) (row : Session) (id : String) (now : ℕ) (w : World)
    → Fits w
    → After w (join socket row id now w)
unfolding join
join-After socket row id now w f =
    After-bind (ensure_state row now) _ w (After-Silent _ (ensure_state-Silent row now w) f)
      λ s v g.
        After-bind (replace_socket (lookup id s.sockets) socket) _ v
          (After-Silent _ (replace_socket-Silent _ socket v) g)
          λ a u h.
            After-bind (on_state row.id (joined id socket)) _ u
              (After-Silent _ (on_state-Silent row.id (joined id socket) u) h)
              (λ b t k. start_if_joined-After (joined id socket s) now t k)
