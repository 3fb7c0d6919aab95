-- ===== src/Lifecycle/Silent.antt =====
-- The parts of src/babeltower/relay.py that leave the database alone.
use babeltower.Prelude.{
  ℕ, String, refl, Option, none, some, Bool, true, false, List, [], ◌∷◌, ◌!=◌, nat_eq, leb, lookup,
  length, contains, string_eq, if◌then◌else◌,
}
use babeltower.World.{World, SessionState, Frame, Object, envelope}
use babeltower.Exec.{Exec, Result, ok, err, continue}
use babeltower.Relay.Sockets.{send_json, safe_send_json, safe_close, on_state, get_state, is_dead}
use babeltower.Relay.End.{hang_up_all, schedule_handoff_close, schedule_state}
use babeltower.Relay.Messages.{
  hold, pass_on, deliver, buffer_of, buffer_limit, flush_buffer, flush_from, flush_to,
  flush_for_joined_agent, send_to, send_members, send_all, emit_to_others, emit_to_counterparty,
  emit_to_sockets, emit_to_session, others,
}
use babeltower.Relay.Join.{replace_socket, disconnect, ensure_state, state_or_new}
use babeltower.Models.{Session}
use babeltower.Lifecycle.Sound.{SameDb, SameDb-trans, Fits, After, After-same}

pub record Silent {A : Type 0} (w : World) (p : Result A × World) : Type 0 where
  pub same : SameDb w p.1

pub Silent-here : {A : Type 0} {w : World} (r : Result A) → Silent w (r, w)
Silent-here r = record { same = record { store = refl; work = refl } }

pub After-Silent : {A : Type 0} {w : World} (p : Result A × World) → Silent w p → Fits w → After w p
After-Silent p s f = After-same p.0 s.same f

Silent-continue :
    {A B : Type 0} {w : World} (r : Result A) (k : A → Exec B) (v : World)
    → SameDb w v
    → ((a : A) → Silent v (k a v))
    → Silent w (continue r k v)
Silent-continue (ok a) k v f h = record { same = SameDb-trans f (h a).same }
Silent-continue (err e) k v f h = record { same = f }

pub Silent-bind :
    {A B : Type 0} (m : Exec A) (k : A → Exec B) (w : World)
    → Silent w (m w)
    → ((a : A) (v : World) → Silent v (k a v))
    → Silent w (continue (m w).0 k (m w).1)
Silent-bind m k w f h = Silent-continue (m w).0 k (m w).1 f.same (λ a. h a (m w).1)

Silent-if :
    {A : Type 0} (w : World) (b : Bool) (p q : Result A × World)
    → Silent w p
    → Silent w q
    → Silent w (if b then p else q)
Silent-if w true p q f g = f
Silent-if w false p q f g = g

pub Silent-if_run :
    {A : Type 0} (w : World) (b : Bool) (m n : Exec A)
    → Silent w (m w)
    → Silent w (n w)
    → Silent w ((if b then m else n) w)
Silent-if_run w true m n f g = f
Silent-if_run w false m n f g = g

pub on_state-Silent :
    (id : String) (f : SessionState → SessionState) (w : World) → Silent w (on_state id f w)
unfolding on_state
on_state-Silent id f w = record { same = record { store = refl; work = refl } }

pub send_json-Silent :
    (socket : ℕ) (frame : Frame) (w : World) → Silent w (send_json socket frame w)
unfolding send_json
send_json-Silent socket frame w =
    Silent-if w (is_dead socket w) _ _ (Silent-here _)
      (record { same = record { store = refl; work = refl } })

pub safe_close-Silent : (socket : ℕ) (w : World) → Silent w (safe_close socket w)
unfolding safe_close
safe_close-Silent socket w =
    Silent-if w (is_dead socket w) _ _ (Silent-here _)
      (record { same = record { store = refl; work = refl } })

safe_send_json-Silent :
    (socket : ℕ) (frame : Frame) (w : World) → Silent w (safe_send_json socket frame w)
unfolding safe_send_json
safe_send_json-Silent socket frame w = record { same = (send_json-Silent socket frame w).same }

pub hang_up_all-Silent :
    (event : Frame) (sockets : List (String × ℕ)) (w : World)
    → Silent w (hang_up_all event sockets w)
unfolding hang_up_all
hang_up_all-Silent event [] w = Silent-here _
hang_up_all-Silent event ((m, socket) ∷ rest) w =
    Silent-bind (safe_send_json socket event) _ w (safe_send_json-Silent socket event w) λ a v.
      Silent-bind (safe_close socket) _ v (safe_close-Silent socket v)
        λ b u. hang_up_all-Silent event rest u

module _ (s : SessionState) (id : String) (socket : ℕ) (o : Object) where
  hold-Silent : (w : World) → Silent w (hold s id socket o w)
  unfolding hold
  hold-Silent w =
      Silent-if_run w (leb buffer_limit (length (buffer_of s id))) _ _ (send_json-Silent socket _ w)
        (on_state-Silent s.session_id _ w)

  pass_on-Silent : (found : Option ℕ) (w : World) → Silent w (pass_on s id socket o found w)
  unfolding pass_on
  pass_on-Silent none w = hold-Silent w
  pass_on-Silent (some recipient) w = send_json-Silent recipient (envelope o) w

  pub deliver-Silent : (rs : List String) (w : World) → Silent w (deliver s id socket o rs w)
  unfolding deliver
  deliver-Silent [] w = Silent-here _
  deliver-Silent (r ∷ rest) w =
      Silent-bind (pass_on s id socket o (lookup r s.sockets)) _ w (pass_on-Silent _ w)
        (λ a v. deliver-Silent rest v)

module _ (event : Frame) where
  send_to-Silent : (found : Option ℕ) (w : World) → Silent w (send_to event found w)
  unfolding send_to
  send_to-Silent none w = Silent-here _
  send_to-Silent (some socket) w = send_json-Silent socket event w

  send_members-Silent :
      (s : SessionState) (ms : List String) (w : World) → Silent w (send_members s event ms w)
  unfolding send_members
  send_members-Silent s [] w = Silent-here _
  send_members-Silent s (m ∷ rest) w =
      Silent-bind (send_to event (lookup m s.sockets)) _ w (send_to-Silent _ w)
        (λ a v. send_members-Silent s rest v)

  send_all-Silent : (sockets : List (String × ℕ)) (w : World) → Silent w (send_all event sockets w)
  unfolding send_all
  send_all-Silent [] w = Silent-here _
  send_all-Silent ((m, socket) ∷ rest) w =
      Silent-bind (send_json socket event) _ w (send_json-Silent socket event w)
        (λ a v. send_all-Silent rest v)

  emit_to_others-Silent :
      (from_id : String) (o : Option SessionState) (w : World)
      → Silent w (emit_to_others from_id event o w)
  unfolding emit_to_others
  emit_to_others-Silent from_id none w = Silent-here _
  emit_to_others-Silent from_id (some s) w = send_members-Silent s (others s from_id) w

  emit_to_sockets-Silent :
      (o : Option SessionState) (w : World) → Silent w (emit_to_sockets event o w)
  unfolding emit_to_sockets
  emit_to_sockets-Silent none w = Silent-here _
  emit_to_sockets-Silent (some s) w = send_all-Silent s.sockets w

pub emit_to_counterparty-Silent :
    (id from_id event_type : String) (body : Object) (w : World)
    → Silent w (emit_to_counterparty id from_id event_type body w)
unfolding emit_to_counterparty
emit_to_counterparty-Silent id from_id event_type body w =
    emit_to_others-Silent _ from_id (get_state id w) w

pub emit_to_session-Silent :
    (id event_type : String) (body : Object) (w : World)
    → Silent w (emit_to_session id event_type body w)
unfolding emit_to_session
emit_to_session-Silent id event_type body w = emit_to_sockets-Silent _ (get_state id w) w

schedule_state-Silent :
    (id : String) (o : Option SessionState) (w : World) → Silent w (schedule_state id o w)
unfolding schedule_state
schedule_state-Silent id none w =
    Silent-if w (contains id w.handoff_tasks) _ _
      (record { same = record { store = refl; work = refl } })
      (record { same = record { store = refl; work = refl } })
schedule_state-Silent id (some s) w = on_state-Silent id _ w

pub schedule_handoff_close-Silent :
    (id : String) (w : World) → Silent w (schedule_handoff_close id w)
unfolding schedule_handoff_close
schedule_handoff_close-Silent id w = schedule_state-Silent id (get_state id w) w

flush_buffer-Silent :
    (id sender : String) (socket : ℕ) (b : List Object) (w : World)
    → Silent w (flush_buffer id sender socket b w)
unfolding flush_buffer
flush_buffer-Silent id sender socket [] w = Silent-here _
flush_buffer-Silent id sender socket (o ∷ rest) w =
    Silent-bind (on_state id _) _ w (on_state-Silent id _ w) λ a v.
      Silent-bind (send_json socket (envelope o)) _ v (send_json-Silent socket _ v)
        λ b u. flush_buffer-Silent id sender socket rest u

flush_from-Silent :
    (s : SessionState) (socket : ℕ) (ms : List String) (w : World)
    → Silent w (flush_from s socket ms w)
unfolding flush_from
flush_from-Silent s socket [] w = Silent-here _
flush_from-Silent s socket (m ∷ rest) w =
    Silent-bind (flush_buffer s.session_id m socket (buffer_of s m)) _ w
      (flush_buffer-Silent s.session_id m socket (buffer_of s m) w)
      (λ a v. flush_from-Silent s socket rest v)

flush_to-Silent :
    (s : SessionState) (id : String) (o : Option ℕ) (w : World) → Silent w (flush_to s id o w)
unfolding flush_to
flush_to-Silent s id none w = Silent-here _
flush_to-Silent s id (some socket) w = flush_from-Silent s socket (others s id) w

pub flush_for_joined_agent-Silent :
    (s : SessionState) (id : String) (w : World) → Silent w (flush_for_joined_agent s id w)
unfolding flush_for_joined_agent
flush_for_joined_agent-Silent s id w = flush_to-Silent s id (lookup id s.sockets) w

pub replace_socket-Silent :
    (old : Option ℕ) (socket : ℕ) (w : World) → Silent w (replace_socket old socket w)
unfolding replace_socket
replace_socket-Silent none socket w = Silent-here _
replace_socket-Silent (some old) socket w =
    Silent-if_run w (old != socket) _ _ (safe_close-Silent old w) (Silent-here _)

state_or_new-Silent :
    (row : Session) (now : ℕ) (o : Option SessionState) (w : World)
    → Silent w (state_or_new row now o w)
unfolding state_or_new
state_or_new-Silent row now none w = record { same = record { store = refl; work = refl } }
state_or_new-Silent row now (some s) w = Silent-here _

pub ensure_state-Silent : (row : Session) (now : ℕ) (w : World) → Silent w (ensure_state row now w)
unfolding ensure_state
ensure_state-Silent row now w = state_or_new-Silent row now (get_state row.id w) w

pub disconnect-Silent :
    (id agent_id : String) (socket : ℕ) (w : World) → Silent w (disconnect id agent_id socket w)
unfolding disconnect
disconnect-Silent id agent_id socket w = on_state-Silent id _ w
