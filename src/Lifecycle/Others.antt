-- ===== src/Lifecycle/Others.antt =====
-- Ends of sessions, accounts and the maintenance job keep the lifecycle.
use babeltower.Prelude.{
  ℕ, String, ◌≡◌, refl, Option, none, some, Bool, true, arith, ◌!=◌, ◌&&◌, inr, string_eq,
  update_where,
}
use babeltower.Models.{
  Db, Agent, Session, ConnectionRequest, SessionStatus, session_status_eq, intent_status_eq,
}
use babeltower.World.{World}
use babeltower.Relay.End.{handler}
use babeltower.Relay.End
use babeltower.Sessions.{
  member_session, get_member_session, ended, close_session, end_loaded, end_session,
}
use babeltower.Agents.{delete_agent, is_member}
use babeltower.Jobs.{
  run_maintenance, maintain, never_joined, out_of_time, handed_off, request_runs_out,
  expired_request,
}
use babeltower.Lifecycle.{SessionFollows, RequestFollows, here, next, closes}
use babeltower.Lifecycle.Steps.{
  Steps, Steps-trans, Steps-other, Steps-on_session, Steps-update_sessions, Steps-update_requests,
}
use babeltower.Lifecycle.Sound.{Fits, After, After-stay, After-bind, After-if_run, After-commit}
use babeltower.Lifecycle.Ending.{end_session-After}

ended-Follows : (now : ℕ) (reason : String) (s : Session) → SessionFollows s (ended now reason s)
ended-Follows now reason s = record {
  id = refl;
  agent_a = refl;
  agent_b = refl;
  request = refl;
  status = next here (closes s.status);
}

-- Closing whatever sessions pass a test.
pub close-Steps :
    (p : Session → Bool) (now : ℕ) (reason : String) (db : Db)
    → Steps db (record db { sessions = update_where p (ended now reason) db.sessions })
close-Steps p now reason db =
    Steps-update_sessions p (ended now reason) db (λ s. refl) (λ s e h. (refl, refl))
      (λ s e. ended-Follows now reason s)

close_session-After :
    (id reason : String) (now : ℕ) (w : World) → Fits w → After w (close_session id reason now w)
unfolding close_session
close_session-After id reason now w f = After-commit _ refl f (
    Steps-on_session id (ended now reason) w.work (λ s. refl) (λ s e h. (refl, refl))
      (λ s e. ended-Follows now reason s))

end_loaded-After :
    (now : ℕ) (o : Option Session) (w : World) → Fits w → After w (end_loaded now o w)
unfolding end_loaded
end_loaded-After now none w f = After-stay _ f
end_loaded-After now (some row) w f =
    After-if_run w w (row.status != SessionStatus.closed) _ _
      (λ _.
        After-bind (close_session row.id "ended_by_agent" now) _ w
          (close_session-After row.id "ended_by_agent" now w f)
          λ a v g.
            After-bind (End.end_session handler row.id "ended_by_agent" now) _ v
              (end_session-After handler row.id "ended_by_agent" now v g) (λ b u h. After-stay _ h))
      (λ _. After-stay _ f)

pub end_session-route-After :
    (id : String) (agent : Agent) (now : ℕ) (w : World)
    → Fits w
    → After w (end_session id agent now w)
unfolding end_session get_member_session
end_session-route-After id agent now w f =
    end_loaded-After now (member_session id agent.id w.work) w f

pub delete_agent-After :
    (agent : Agent) (now : ℕ) (w : World) → Fits w → After w (delete_agent agent now w)
unfolding delete_agent
delete_agent-After agent now w f = After-commit _ refl f (
    Steps-trans
      (close-Steps (λ s. is_member agent.id s && s.status != SessionStatus.closed) now
        "account_deleted" w.work)
      (Steps-other refl refl))

expired_request-Follows :
    (now : ℕ) (r : ConnectionRequest)
    → request_runs_out now r ≡ true
    → RequestFollows r (expired_request now r)
expired_request-Follows now r h = inr (record {
  was_pending = ground arith;
  not_pending = λ e. cc;
  responded = refl;
  id = refl;
  from_agent = refl;
  to_agent = refl;
  target_intent = refl;
  from_intent = refl;
  created_at = refl;
  expires_at = refl;
})

maintain-Steps : (now : ℕ) (db : Db) → Steps db (maintain now db)
unfolding maintain
maintain-Steps now db =
    Steps-trans (close-Steps (never_joined now) now "awaiting_join_expired" db) (
      Steps-trans (close-Steps (out_of_time now) now "time_limit_reached" _) (
        Steps-trans (close-Steps (handed_off now) now "handoff_complete" _) (
          Steps-trans
            (Steps-update_requests (request_runs_out now) (expired_request now) _
              (λ r h. expired_request-Follows now r h))
            (Steps-other refl refl))))

pub run_maintenance-After : (now : ℕ) (w : World) → Fits w → After w (run_maintenance now w)
unfolding run_maintenance
run_maintenance-After now w f = After-commit _ refl f (maintain-Steps now w.work)
