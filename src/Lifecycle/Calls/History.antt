-- ===== src/Lifecycle/Calls/History.antt =====
-- What every history of calls keeps: the proofs, call by call.
use babeltower.Prelude.{
  ℕ, String, ◌≡◌, refl, Option, none, some, List, [], ◌∷◌, ◌==◌, string_eq, find, inl, inr,
  Bool-cases, arith, subst,
}
use babeltower.Prelude.Evolves.{Evolves}
use babeltower.Models.{Session, SessionStatus}
use babeltower.World.{World, SessionState}
use babeltower.Exec.{Exn, Result, ok, err, begin}
use babeltower.Relay.Sockets.{get_state}
use babeltower.Relay.Messages.{Parsed}
use babeltower.Relay.Join.{disconnect}
use babeltower.Relay.Persist.{find_session}
use babeltower.Lifecycle.{IsGood, Leads, SessionFollows, IsNewSession, Move, Reach, here, next}
use babeltower.Lifecycle.Rows.{Leads-refl, Leads-trans}
use babeltower.Lifecycle.Sound.{Fits, After, After-stay, After-trans}
use babeltower.Lifecycle.Silent.{After-Silent, disconnect-Silent}
use babeltower.Lifecycle.Connecting.{create_connection-After}
use babeltower.Lifecycle.Requests.{
  accept_connection-After, reject_connection-After, cancel_connection-After,
}
use babeltower.Lifecycle.Matching.{accept_match-After, reject_match-After}
use babeltower.Lifecycle.Proposing.{propose_match-After}
use babeltower.Lifecycle.Others.{end_session-route-After, delete_agent-After, run_maintenance-After}
use babeltower.Lifecycle.Blocking.{unblock_agent-After}
use babeltower.Lifecycle.Blocking.{block_agent-After}
use babeltower.Lifecycle.Posting.{create_intent-After, delete_intent-After, refresh_intent-After}
use babeltower.Lifecycle.Registering.{init_registration-Silent, oauth_callback-After}
use babeltower.Lifecycle.Polling.{get_inbox-After, search-Silent}
use babeltower.Lifecycle.Relaying.{handle_frame-After, join-After}
use babeltower.Lifecycle.Ending.{end_session-After}
use babeltower.Lifecycle.Calls.{
  Services, Call, connects, accepts, rejects, cancels, ends, proposes, accepts_match, rejects_match,
  blocks, unblocks, deletes_account, posts, deletes_intent, refreshes, maintains, registers,
  calls_back, polls, searches, joins_session, sends, leaves, deadline, frame_for, on_disconnect,
  left, perform_in, perform, serve,
}

abbrev Kept : World → World → Type 0
Kept w v = IsGood v.store × Leads w.store v.store

kept : {A : Type 0} (w : World) (p : Result A × World) → After (begin w) p → Kept w (left p)
kept w p a = (a.fits.store, a.leads)

on_disconnect-After :
    (id agent_id : String) (socket : ℕ) (w : World) (p : Result (Unit {0}) × World)
    → After w p
    → After w (on_disconnect id agent_id socket p)
unfolding on_disconnect
on_disconnect-After id agent_id socket w (ok a, v) h = h
on_disconnect-After id agent_id socket w (err e, v) h =
    elim e as (λ x. After w (on_disconnect id agent_id socket (err x, v))) [
      | Exn.websocket_disconnect ↦
          After-trans (disconnect id agent_id socket v) h.leads
            (After-Silent _ (disconnect-Silent id agent_id socket v) h.fits)
      | _ ↦ record { fits = h.fits; leads = h.leads }
    ]

frame_for-After :
    (json_loads : String → Parsed) (o : Option SessionState) (agent_id : String) (socket : ℕ)
    (raw : String) (now : ℕ) (w : World)
    → Fits w
    → After w (frame_for json_loads o agent_id socket raw now w)
unfolding frame_for
frame_for-After json_loads none agent_id socket raw now w f = After-stay _ f
frame_for-After json_loads (some s) agent_id socket raw now w f =
    on_disconnect-After s.session_id agent_id socket w _
      (handle_frame-After s agent_id socket now json_loads raw w f)

begin-Fits : (w : World) → IsGood w.store → Fits (begin w)
begin-Fits w g = record { store = g; work = g; leads = Leads-refl w.store }

module _ (services : Services) where
  perform_in-Kept :
      (c : Call) (w : World) → Fits (begin w) → Kept w (perform_in services c (begin w))
  unfolding perform_in
  perform_in-Kept (connects id event_id agent body now) w f =
      kept w _ (create_connection-After id event_id agent body now _ f)
  perform_in-Kept (accepts new_id id agent now) w f =
      kept w _ (accept_connection-After new_id id agent now _ f)
  perform_in-Kept (rejects id agent reason now) w f =
      kept w _ (reject_connection-After id agent reason now _ f)
  perform_in-Kept (cancels id agent now) w f = kept w _ (cancel_connection-After id agent now _ f)
  perform_in-Kept (ends id agent now) w f = kept w _ (end_session-route-After id agent now _ f)
  perform_in-Kept (proposes id agent now) w f = kept w _ (propose_match-After agent now id _ f)
  perform_in-Kept (accepts_match id agent now) w f = kept w _ (accept_match-After agent now id _ f)
  perform_in-Kept (rejects_match id agent reason) w f =
      kept w _ (reject_match-After agent 0 id reason _ f)
  perform_in-Kept (blocks id event_id agent pubkey reason now) w f =
      kept w _ (block_agent-After id event_id agent reason now pubkey _ f)
  perform_in-Kept (unblocks agent pubkey) w f = kept w _ (unblock_agent-After agent pubkey _ f)
  perform_in-Kept (deletes_account agent now) w f = kept w _ (delete_agent-After agent now _ f)
  perform_in-Kept (posts id event_id agent body now) w f = kept w _ (
      create_intent-After services.regex services.crypto services.voyage id event_id agent body now
        _ f)
  perform_in-Kept (deletes_intent id agent) w f = kept w _ (delete_intent-After id agent _ f)
  perform_in-Kept (refreshes id agent now) w f = kept w _ (refresh_intent-After id agent now _ f)
  perform_in-Kept (maintains now) w f = kept w _ (run_maintenance-After now _ f)
  perform_in-Kept (registers token pubkey nonce signature now) w f = kept w _ (
      After-Silent _
        (init_registration-Silent services.crypto services.http_client services.settings token
          pubkey nonce signature now _)
        f)
  perform_in-Kept (calls_back id code state now) w f =
      kept w _ (oauth_callback-After services.http_client services.settings state now id code _ f)
  perform_in-Kept (polls agent now) w f = kept w _ (get_inbox-After agent now _ f)
  perform_in-Kept (searches agent body now) w f = kept w _ (
      After-Silent _
        (search-Silent services.crypto services.voyage services.str services.field_text
          services.distance agent body now _)
        f)
  perform_in-Kept (joins_session socket row agent_id now) w f =
      kept w _ (join-After socket row agent_id now _ f)
  perform_in-Kept (sends id agent_id socket raw now) w f =
      kept w _
        (frame_for-After services.json_loads (get_state id (begin w)) agent_id socket raw now _ f)
  perform_in-Kept (leaves id agent_id socket) w f =
      kept w _ (After-Silent _ (disconnect-Silent id agent_id socket _) f)
  perform_in-Kept (deadline caller id reason now) w f =
      kept w _ (end_session-After caller id reason now _ f)

  serve-Kept : (cs : List Call) (w : World) → IsGood w.store → Kept w (serve services cs w)
  unfolding serve perform
  serve-Kept [] w g = (g, Leads-refl w.store)
  serve-Kept (c ∷ cs) w g =
      let one = perform_in-Kept c w (begin-Fits w g) in
      let rest = serve-Kept cs (perform services c w) one.0 in (rest.0, Leads-trans one.1 rest.1)

  -- From a database that is good, every history of calls leaves a good one: each session's columns
  -- fit its status, its request is accepted, and no two sessions are of one request.
  pub serve-IsGood :
      (cs : List Call) (w : World) → IsGood w.store → IsGood (serve services cs w).store
  serve-IsGood cs w g = (serve-Kept cs w g).0

  -- From a good database, over every history of calls: rows of sessions and requests keep their
  -- places, a session keeps its id, members and request and its status only takes steps of the
  -- protocol, a new session's status is reached from `awaiting_join`; a request that is not pending
  -- keeps all its columns, and one that is answered keeps who asked whom for which intents and when.
  pub serve-Leads :
      (cs : List Call) (w : World) → IsGood w.store → Leads w.store (serve services cs w).store
  serve-Leads cs w g = (serve-Kept cs w g).1

Reach-closed :
    {s t : SessionStatus} → Reach s t → s ≡ SessionStatus.closed → t ≡ SessionStatus.closed
Reach-closed here e = e
Reach-closed (next r m) e = last m (Reach-closed r e)
  where
    last : {t u : SessionStatus} → Move t u → t ≡ SessionStatus.closed → u ≡ SessionStatus.closed
    last Move.joins h = cc
    last Move.proposes h = cc
    last Move.rejects h = cc
    last Move.confirms h = cc
    last (Move.closes s) h = refl

-- The row that an id picks is followed by the row that it picks later.
find-Evolves :
    (id : String) (ss ts : List Session) (s : Session)
    → Evolves SessionFollows IsNewSession ss ts
    → find (λ t. t.id == id) ss ≡ some s
    → (t : Session) × (find (λ t. t.id == id) ts ≡ some t) × SessionFollows s t
unfolding find
find-Evolves id [] ts s e h = cc
find-Evolves id (x ∷ xs) [] s e h = absurd e
find-Evolves id (x ∷ xs) (y ∷ ys) s e h = elim (Bool-cases (x.id == id)) [
  | inl hit ↦
      let same : x ≡ s = ground (arith, hit, h) in
      (y, rw (e.0.id, hit), subst (λ r. SessionFollows r y) same e.0)
  | inr miss ↦
      let found = find-Evolves id xs ys s e.1 (ground (arith, miss, h)) in
      (found.0, rw (e.0.id, miss, found.1), found.2)
]

module _ (services : Services) where
  -- A session that is closed stays closed over every history of calls: its row is still found by its
  -- id, it is closed, and its members and its request are those that it had.
  pub closed_stays :
      (cs : List Call) (w : World) (id : String) (s : Session)
      → IsGood w.store
      → find_session id w.store ≡ some s
      → s.status ≡ SessionStatus.closed
      → (t : Session) × (find_session id (serve services cs w).store ≡ some t)
        × (t.status ≡ SessionStatus.closed)
        × (t.agent_a_id ≡ s.agent_a_id)
        × (t.agent_b_id ≡ s.agent_b_id)
        × (t.connection_request_id ≡ s.connection_request_id)
  closed_stays cs w id s g h c =
      let found = find-Evolves id _ _ s (serve-Leads services cs w g).sessions h in
      let follows = found.2 in
      (
        found.0,
        found.1,
        Reach-closed follows.status c,
        follows.agent_a,
        follows.agent_b,
        follows.request,
      )
