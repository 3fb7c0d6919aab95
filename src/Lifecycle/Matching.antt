-- ===== src/Lifecycle/Matching.antt =====
-- A proposal that is taken up or turned down keeps the lifecycle: src/babeltower/routes/matches.py.
use babeltower.Prelude.{
  ℕ, String, ◌≡◌, refl, Option, none, some, false, List, [], ◌∷◌, map, arith, ◌==◌, ◌!=◌, string_eq,
  select,
}
use babeltower.Models.{Db, Agent, Session, SessionStatus, session_status_eq}
use babeltower.World.{World, Value}
use babeltower.Exec.{ok, scalar_one}
use babeltower.Relay.Persist.{find_session, on_session}
use babeltower.Relay.End.{schedule_handoff_close}
use babeltower.Relay.Messages.{emit_to_session}
use babeltower.Sessions.{member_session, get_member_session}
use babeltower.Matches.{
  get_agent_pubkey, as_confirmed, accept_match_db, confirm_match, accept_proposed, accept_loaded,
  accept_match, as_rejected, turn_down, or_null, inc_matches, store_match, reject_proposed,
  reject_loaded, reject_match,
}
use babeltower.Lifecycle.{here, next, rejects, confirms}
use babeltower.Lifecycle.Steps.{Steps, Steps-trans, Steps-other, Steps-on_session}
use babeltower.Lifecycle.Sound.{
  Fits, After, After-stay, After-bind, After-if_run, After-commit, After-trans,
}
use babeltower.Lifecycle.Proposing.{member_session-found}
use babeltower.Lifecycle.Silent.{
  After-Silent, emit_to_session-Silent, schedule_handoff_close-Silent,
}

-- A proposal that is taken up or turned down.
module _ (row : Session) (db : Db) (e : find_session row.id db ≡ some row)
    (p : (row.status != SessionStatus.match_proposed) ≡ false) where
  was_proposed :
      (s : Session) → find_session row.id db ≡ some s → s.status ≡ SessionStatus.match_proposed
  was_proposed s q = ground (arith, e, p)

  confirmed-Steps :
      (agent_id proposer_id : String) (now : ℕ)
      → Steps db (accept_match_db row agent_id proposer_id now db)
  unfolding accept_match_db
  confirmed-Steps agent_id proposer_id now =
      Steps-trans
        (Steps-on_session row.id (as_confirmed now) db (λ s. refl)
          (λ s q h. ground (arith, was_proposed s q))
          (λ s q. record {
            id = refl;
            agent_a = refl;
            agent_b = refl;
            request = refl;
            status = rw (was_proposed s q) (next here confirms);
          }))
        (Steps-other refl refl)

  rejected-Steps : Steps db (on_session row.id as_rejected db)
  rejected-Steps =
      Steps-on_session row.id as_rejected db (λ s. refl) (λ s q h. ground (arith, was_proposed s q))
        (λ s q. record {
          id = refl;
          agent_a = refl;
          agent_b = refl;
          request = refl;
          status = rw (was_proposed s q) (next here rejects);
        })

module _ (agent : Agent) (now : ℕ) where
  store_match-After :
      (row : Session) (proposer_id proposer_pubkey : String) (w : World)
      → find_session row.id w.work ≡ some row
      → (row.status != SessionStatus.match_proposed) ≡ false
      → Fits w
      → After w (store_match row agent proposer_id proposer_pubkey now w)
  unfolding store_match
  store_match-After row proposer_id proposer_pubkey w e p f =
      let v = record w {
        store = accept_match_db row agent.id proposer_id now w.work;
        work = accept_match_db row agent.id proposer_id now w.work;
        metrics = inc_matches w.metrics;
      } in
      let stored : After w (ok tt, v) =
        After-commit (ok tt) refl f (confirmed-Steps row w.work e p agent.id proposer_id now) in
      After-trans _ stored.leads (
        After-bind
          (emit_to_session row.id "match_confirmed" (
            ("confirmed_at", Value.time now)
            ∷ ("proposed_by", Value.text proposer_pubkey)
            ∷ ("accepted_by", Value.text agent.pubkey)
            ∷ []))
          _ v (After-Silent _ (emit_to_session-Silent _ _ _ v) stored.fits)
          λ b u h.
            After-bind (schedule_handoff_close row.id) _ u
              (After-Silent _ (schedule_handoff_close-Silent row.id u) h) (λ c t k. After-stay _ k))

  confirm_match-After :
      (row : Session) (proposer_id : String) (w : World)
      → find_session row.id w.work ≡ some row
      → (row.status != SessionStatus.match_proposed) ≡ false
      → Fits w
      → After w (confirm_match row agent proposer_id now w)
  unfolding confirm_match get_agent_pubkey scalar_one
  confirm_match-After row proposer_id w e p f =
      by_rows (map (λ a. a.pubkey) (select (λ a. a.id == proposer_id) w.work.agents)) refl
    where
      by_rows :
          (rows : List String)
          → map (λ a. a.pubkey) (select (λ a. a.id == proposer_id) w.work.agents) ≡ rows
          → After w (confirm_match row agent proposer_id now w)
      by_rows [] h = rw (h, confirm_match, get_agent_pubkey) (After-stay _ f)
      by_rows (x ∷ []) h =
          rw (h, confirm_match, get_agent_pubkey) (store_match-After row proposer_id x w e p f)
      by_rows (x ∷ y ∷ rest) h = rw (h, confirm_match, get_agent_pubkey) (After-stay _ f)

  turn_down-After :
      (row : Session) (reason : Option String) (w : World)
      → find_session row.id w.work ≡ some row
      → (row.status != SessionStatus.match_proposed) ≡ false
      → Fits w
      → After w (turn_down row agent reason w)
  unfolding turn_down
  turn_down-After row reason w e p f =
      let v = record w {
        store = on_session row.id as_rejected w.work;
        work = on_session row.id as_rejected w.work;
      } in
      let stored : After w (ok tt, v) =
        After-commit (ok tt) refl f (rejected-Steps row w.work e p) in
      After-trans _ stored.leads (
        After-bind
          (emit_to_session row.id "match_rejected"
            (("rejected_by", Value.text agent.pubkey) ∷ ("reason", or_null reason) ∷ []))
          _ v (After-Silent _ (emit_to_session-Silent _ _ _ v) stored.fits)
          (λ b u h. After-stay _ h))

  accept_proposed-After :
      (row : Session) (o : Option String) (w : World)
      → find_session row.id w.work ≡ some row
      → (row.status != SessionStatus.match_proposed) ≡ false
      → Fits w
      → After w (accept_proposed row agent now o w)
  unfolding accept_proposed
  accept_proposed-After row none w e p f = After-stay _ f
  accept_proposed-After row (some proposer_id) w e p f =
      After-if_run w w (proposer_id == agent.id) _ _ (λ _. After-stay _ f)
        (λ _. confirm_match-After row proposer_id w e p f)

  accept_loaded-After :
      (session_id : String) (o : Option Session) (w : World)
      → member_session session_id agent.id w.work ≡ o
      → Fits w
      → After w (accept_loaded agent now o w)
  unfolding accept_loaded
  accept_loaded-After session_id none w e f = After-stay _ f
  accept_loaded-After session_id (some row) w e f =
      After-if_run w w (row.status != SessionStatus.match_proposed) _ _ (λ _. After-stay _ f)
        (λ p.
          accept_proposed-After row row.match_proposed_by_id w
            (member_session-found session_id agent.id w.work row e).0 p f)

  pub accept_match-After :
      (session_id : String) (w : World) → Fits w → After w (accept_match session_id agent now w)
  unfolding accept_match get_member_session
  accept_match-After session_id w f =
      accept_loaded-After session_id (member_session session_id agent.id w.work) w refl f

  reject_proposed-After :
      (row : Session) (reason o : Option String) (w : World)
      → find_session row.id w.work ≡ some row
      → (row.status != SessionStatus.match_proposed) ≡ false
      → Fits w
      → After w (reject_proposed row agent reason o w)
  unfolding reject_proposed
  reject_proposed-After row reason none w e p f = After-stay _ f
  reject_proposed-After row reason (some proposer_id) w e p f =
      After-if_run w w (proposer_id == agent.id) _ _ (λ _. After-stay _ f)
        (λ _. turn_down-After row reason w e p f)

  reject_loaded-After :
      (session_id : String) (reason : Option String) (o : Option Session) (w : World)
      → member_session session_id agent.id w.work ≡ o
      → Fits w
      → After w (reject_loaded agent reason o w)
  unfolding reject_loaded
  reject_loaded-After session_id reason none w e f = After-stay _ f
  reject_loaded-After session_id reason (some row) w e f =
      After-if_run w w (row.status != SessionStatus.match_proposed) _ _ (λ _. After-stay _ f)
        (λ p.
          reject_proposed-After row reason row.match_proposed_by_id w
            (member_session-found session_id agent.id w.work row e).0 p f)

  pub reject_match-After :
      (session_id : String) (reason : Option String) (w : World)
      → Fits w
      → After w (reject_match session_id agent reason w)
  unfolding reject_match get_member_session
  reject_match-After session_id reason w f =
      reject_loaded-After session_id reason (member_session session_id agent.id w.work) w refl f
