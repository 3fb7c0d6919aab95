-- ===== src/Inbox/Presence.antt =====
-- A poll, src/babeltower/routes/inbox.py, and the agent's intents after the next run of
-- src/babeltower/jobs.py.
use babeltower.Prelude.{
  ℕ, ◌+◌, ◌≤◌, ◌<◌, ap, Bool, false, [], ◌∷◌, String, ◌≡◌, refl, ◌∙◌, some, true, ◌&&◌, inl, inr,
  List, if◌then◌else◌, ◌==◌, string_eq, arith, Bool-cases, find, count, update_row,
  count-update_where, count_ext, count-find, find-update_row,
}
use babeltower.Models.{Db, Agent, AgentStatus, intent_status_eq, agent_status_eq, minutes}
use mathlib.Core.Option.{some-injective}
use babeltower.World.{World}
use babeltower.Exec.{run}
use babeltower.Jobs.{
  in_agents, is_present, ban_is_over, lifted, lift_bans, maintain, run_maintenance,
}
use babeltower.Inbox.{seen_at, load_inbox, get_inbox}
use babeltower.Jobs.Awake.{of_agent, is_dormant, is_active, is_running, maintain_intents-wakes}

-- Bans that are lifted do not change who is present.
in_agents-lift_bans :
    (later : ℕ) (agent_id : String) (agents : List Agent)
    → in_agents (is_present later) agent_id (lift_bans later agents)
      ≡ in_agents (is_present later) agent_id agents
unfolding in_agents lift_bans
in_agents-lift_bans later agent_id agents =
    let p = λ (a : Agent). a.id == agent_id && is_present later a in
    rw
      (count-update_where p (ban_is_over later) lifted agents
        ∙ count_ext (λ x. p (if ban_is_over later x then lifted x else x)) p agents same)
      refl
  where
    same :
        (x : Agent)
        → ((if ban_is_over later x then lifted x else x).id == agent_id
            && is_present later (if ban_is_over later x then lifted x else x))
          ≡ (x.id == agent_id && is_present later x)
    same x = elim (Bool-cases (ban_is_over later x)) [ inl t ↦ rw t refl | inr t ↦ rw t refl ]

-- Who has just polled is present.
polled-IsPresent :
    (agent_id : String) (now later : ℕ) (agents : List Agent) {row : Agent}
    → find (λ a. a.id == agent_id) agents ≡ some row
    → later ≤ now + minutes 5
    → in_agents
        (is_present later)
        agent_id
        (update_row (λ a. a.id == agent_id) (seen_at now) agents)
      ≡ true
unfolding in_agents
polled-IsPresent agent_id now later agents {row} e h =
    let p = λ (a : Agent). a.id == agent_id in
    let polled = update_row p (seen_at now) agents in
    let found : find p polled ≡ some (seen_at now row) =
      find-update_row p (seen_at now) agents (λ y k. k) e in
    ground (arith, count-find p (is_present later) polled found (ground (arith, h)))

abbrev pub polled_and_maintained : Agent → ℕ → ℕ → World → Db
polled_and_maintained agent now later w =
    (run (run_maintenance later) (run (get_inbox agent now) w).1).1.store

-- None of the agent's intents is dormant, and as many are active as were active or dormant before and
-- have not run out of time.
abbrev pub IsAwake : String → ℕ → World → Db → Type 0
IsAwake agent_id later w db =
    (count (of_agent agent_id is_dormant) db.intents ≡ 0)
    × (count (of_agent agent_id is_active) db.intents
        ≡ count (of_agent agent_id (is_running later)) w.store.intents)

polled-IsAwake :
    (agent : Agent) (now later : ℕ) (w : World) {row : Agent}
    → find (λ a. a.id == agent.id) w.store.agents ≡ some row
    → later ≤ now + minutes 5
    → IsAwake agent.id later w (polled_and_maintained agent now later w)
unfolding get_inbox load_inbox run_maintenance maintain
polled-IsAwake agent now later w e h =
    let polled = update_row (λ a. a.id == agent.id) (seen_at now) w.store.agents in
    let agents = lift_bans later polled in
    let present : in_agents (is_present later) agent.id agents ≡ true =
      in_agents-lift_bans later agent.id polled
      ∙ polled-IsPresent agent.id now later w.store.agents e h in
    maintain_intents-wakes agent.id later agents w.store.intents present

-- Where an active agent polls and the maintenance job runs within the next five minutes, none of the
-- agent's intents is dormant afterwards, and as many are active as were active or dormant before and
-- have not run out of time.
pub get_inbox-wakes :
    (agent : Agent) (now later : ℕ) (w : World) {row : Agent}
    → find (λ a. a.id == agent.id) w.store.agents ≡ some row
    → row.status ≡ AgentStatus.active
    → later ≤ now + minutes 5
    → IsAwake agent.id later w (polled_and_maintained agent now later w)
get_inbox-wakes agent now later w {row} e free h = polled-IsAwake agent now later w {row = row} e h

-- A row whose ban goes on is found as it was.
find-lift_bans :
    (p : Agent → Bool) (later : ℕ) (agents : List Agent) {x : Agent}
    → ((y : Agent) → p (lifted y) ≡ p y)
    → find p agents ≡ some x
    → ban_is_over later x ≡ false
    → find p (lift_bans later agents) ≡ some x
unfolding find lift_bans
find-lift_bans p later [] k e h = e
find-lift_bans p later (y ∷ ys) {x} k e h = elim (Bool-cases (p y)) [
  | inl t ↦
      let same : y ≡ x = some-injective y x (ground (arith, e, t)) in
      let goes_on : ban_is_over later y ≡ false = rw same h in rw (goes_on, t) (ap some same)
  | inr t ↦
      let rest = find-lift_bans p later ys {x = x} k (ground (arith, e, t)) h in
      elim (Bool-cases (ban_is_over later y)) [
        | inl u ↦ rw (u, k y, t) rest
        | inr u ↦ rw (u, t) rest
      ]
]

-- The poll wakes the intents of a soft-banned agent too: where its ban lifts only after the job has
-- run, within five minutes of the poll, its row is still soft-banned after the job, but none of its
-- intents is dormant, and as many are active as were active or dormant and have not run out of time.
pub get_inbox-WakesBanned :
    (agent : Agent) (now later lifts_at : ℕ) (w : World) {row : Agent}
    → find (λ a. a.id == agent.id) w.store.agents ≡ some row
    → row.status ≡ AgentStatus.soft_banned
    → row.soft_ban_lifts_at ≡ some lifts_at
    → later < lifts_at
    → later ≤ now + minutes 5
    → (find (λ a. a.id == agent.id) (polled_and_maintained agent now later w).agents
        ≡ some (record row { last_seen_at = some now }))
      × ((record row { last_seen_at = some now }).status ≡ AgentStatus.soft_banned)
      × IsAwake agent.id later w (polled_and_maintained agent now later w)
unfolding get_inbox load_inbox run_maintenance maintain
get_inbox-WakesBanned agent now later lifts_at w {row} e st t l h =
    let p = λ (a : Agent). a.id == agent.id in
    let found = find-update_row p (seen_at now) w.store.agents (λ y k. k) e in
    let goes_on : ban_is_over later (seen_at now row) ≡ false = rw t (ground (arith, l)) in
    (
      find-lift_bans p later (update_row p (seen_at now) w.store.agents) {x = seen_at now row}
          (λ y. refl) found goes_on,
      st,
      polled-IsAwake agent now later w {row = row} e h,
    )
