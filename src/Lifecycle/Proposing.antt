-- ===== src/Lifecycle/Proposing.antt =====
-- A proposal of a match keeps the lifecycle: src/babeltower/routes/matches.py.
use babeltower.Prelude.{
  ℕ, String, ◌≡◌, refl, subst, Option, none, some, true, false, ◌&&◌, ◌||◌, List, [], ◌∷◌, map,
  arith, ◌==◌, ◌!=◌, string_eq, select, find_own, column_is,
}
use babeltower.Models.{Db, Agent, Session, SessionStatus, session_status_eq}
use babeltower.World.{World, Value}
use babeltower.Exec.{ok, scalar_one}
use babeltower.Relay.Persist.{find_session, on_session}
use babeltower.Relay.Messages.{emit_to_counterparty}
use babeltower.Sessions.{member_session, get_member_session}
use babeltower.Matches.{
  get_agent_pubkey, as_proposed, propose_active, confirmed_by, propose_loaded, propose_match,
}
use babeltower.Lifecycle.{here, next, proposes}
use babeltower.Lifecycle.Steps.{Steps, Steps-on_session}
use babeltower.Lifecycle.Sound.{
  Fits, After, After-stay, After-bind, After-if_run, After-commit, After-trans,
}
use babeltower.Lifecycle.Silent.{After-Silent, emit_to_counterparty-Silent}

-- What `get_member_session` says of the row that it returns.
pub member_session-found :
    (session_id agent_id : String) (db : Db) (row : Session)
    → member_session session_id agent_id db ≡ some row
    → (find_session row.id db ≡ some row)
      × ((agent_id == row.agent_a_id || agent_id == row.agent_b_id) ≡ true)
unfolding member_session
member_session-found session_id agent_id db row e = by_row (find_session session_id db) refl
  where
    by_row :
        (o : Option Session)
        → find_session session_id db ≡ o
        → (find_session row.id db ≡ some row)
          × ((agent_id == row.agent_a_id || agent_id == row.agent_b_id) ≡ true)
    by_row none h = ground (arith, h)
    by_row (some s) h =
        let same : s ≡ row = ground (arith, h) in
        (
          subst (λ r. find_session r.id db ≡ some r) same
              (find_own (λ r. r.id) session_id db.sessions h),
          ground (arith, h),
        )

proposed-Steps :
    (row : Session) (agent_id : String) (now : ℕ) (db : Db)
    → find_session row.id db ≡ some row
    → (agent_id == row.agent_a_id || agent_id == row.agent_b_id) ≡ true
    → (row.status != SessionStatus.active) ≡ false
    → Steps db (on_session row.id (as_proposed agent_id now) db)
proposed-Steps row agent_id now db e m a =
    Steps-on_session row.id (as_proposed agent_id now) db (λ s. refl)
      (λ s q h. ground (arith, e, q))
      λ s q. record {
        id = refl;
        agent_a = refl;
        agent_b = refl;
        request = refl;
        status = rw (was s q) (next here proposes);
      }
  where
    was : (s : Session) → find_session row.id db ≡ some s → s.status ≡ SessionStatus.active
    was s q = ground (arith, e)

module _ (agent : Agent) (now : ℕ) where
  propose_active-After :
      (row : Session) (w : World)
      → find_session row.id w.work ≡ some row
      → (agent.id == row.agent_a_id || agent.id == row.agent_b_id) ≡ true
      → (row.status != SessionStatus.active) ≡ false
      → Fits w
      → After w (propose_active row agent now w)
  unfolding propose_active
  propose_active-After row w e m a f =
      let v = record w {
        store = on_session row.id (as_proposed agent.id now) w.work;
        work = on_session row.id (as_proposed agent.id now) w.work;
      } in
      let stored : After w (ok tt, v) =
        After-commit (ok tt) refl f (proposed-Steps row agent.id now w.work e m a) in
      After-trans _ stored.leads (
        After-bind
          (emit_to_counterparty row.id agent.id "match_proposed"
            (("proposed_by", Value.text agent.pubkey) ∷ ("proposed_at", Value.time now) ∷ []))
          _ v (After-Silent _ (emit_to_counterparty-Silent _ _ _ _ v) stored.fits)
          (λ b u h. After-stay _ h))

  scalar_one-After : {A : Type 0} (rows : List A) (w : World) → Fits w → After w (scalar_one rows w)
  unfolding scalar_one
  scalar_one-After [] w f = After-stay _ f
  scalar_one-After (x ∷ []) w f = After-stay _ f
  scalar_one-After (x ∷ y ∷ rest) w f = After-stay _ f

  get_agent_pubkey-After : (id : String) (w : World) → Fits w → After w (get_agent_pubkey id w)
  unfolding get_agent_pubkey
  get_agent_pubkey-After id w f =
      scalar_one-After (map (λ a. a.pubkey) (select (λ a. a.id == id) w.work.agents)) w f

  confirmed_by-After : (o : Option String) (w : World) → Fits w → After w (confirmed_by o w)
  unfolding confirmed_by
  confirmed_by-After none w f = After-stay _ f
  confirmed_by-After (some id) w f =
      After-bind (get_agent_pubkey id) _ w (get_agent_pubkey-After id w f) (λ p v g. After-stay _ g)

  propose_loaded-After :
      (session_id : String) (o : Option Session) (w : World)
      → member_session session_id agent.id w.work ≡ o
      → Fits w
      → After w (propose_loaded agent now o w)
  unfolding propose_loaded
  propose_loaded-After session_id none w e f = After-stay _ f
  propose_loaded-After session_id (some row) w e f =
      let found = member_session-found session_id agent.id w.work row e in
      After-if_run w w
        (row.status == SessionStatus.match_proposed && column_is row.match_proposed_by_id agent.id)
        _ _ (λ _. After-stay _ f)
        λ _.
          After-if_run w w (row.status == SessionStatus.match_confirmed) _ _
            (λ _. confirmed_by-After row.match_proposed_by_id w f)
            λ _.
              After-if_run w w (row.status != SessionStatus.active) _ _ (λ _. After-stay _ f)
                (λ a. propose_active-After row w found.0 found.1 a f)

  pub propose_match-After :
      (session_id : String) (w : World) → Fits w → After w (propose_match session_id agent now w)
  unfolding propose_match get_member_session
  propose_match-After session_id w f =
      propose_loaded-After session_id (member_session session_id agent.id w.work) w refl f
