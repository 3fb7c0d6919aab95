-- ===== src/Jobs/Awake.antt =====
-- What the maintenance job, src/babeltower/jobs.py, does with the intents of one agent.
use babeltower.Prelude.{
  ℕ, String, ◌≡◌, refl, ◌∙◌, ap, Bool, true, false, ◌&&◌, ◌||◌, inl, inr, List, if◌then◌else◌, ◌==◌,
  string_eq, ltb, arith, Bool-cases, count, update_where, count-update_where, count_ext, count_none,
}
use text.Mathlib.TextEquality.{eq_iff}
use babeltower.Models.{Agent, Intent, IntentStatus, intent_status_eq, agent_status_eq}
use babeltower.Jobs.{in_agents, is_present, falls_asleep, wakes_up, runs_out, maintain_intents}

abbrev pub of_agent : String → (Intent → Bool) → Intent → Bool
of_agent agent_id p i = i.agent_id == agent_id && p i

abbrev pub is_dormant : Intent → Bool
is_dormant i = i.status == IntentStatus.dormant

abbrev pub is_active : Intent → Bool
is_active i = i.status == IntentStatus.active

-- Active or dormant, and not yet out of time.
abbrev pub is_running : ℕ → Intent → Bool
is_running now i =
    (i.status == IntentStatus.active || i.status == IntentStatus.dormant) && ltb now i.expires_at

-- The three statements of the job, on one intent.
unfoldable slept : ℕ → List Agent → Intent → Intent
slept later agents i =
    if falls_asleep later agents i then record i { status = IntentStatus.dormant } else i

unfoldable woken : ℕ → List Agent → Intent → Intent
woken later agents i =
    if wakes_up later agents i then record i { status = IntentStatus.active } else i

unfoldable run_out : ℕ → Intent → Intent
run_out later i = if runs_out later i then record i { status = IntentStatus.expired } else i

count-maintain_intents :
    (q : Intent → Bool) (later : ℕ) (agents : List Agent) (intents : List Intent)
    → count q (maintain_intents later agents intents)
      ≡ count (λ i. q (run_out later (woken later agents (slept later agents i)))) intents
unfolding maintain_intents slept woken run_out
count-maintain_intents q later agents intents =
    count-update_where q (runs_out later) (λ i. record i { status = IntentStatus.expired })
      (update_where (wakes_up later agents) (λ i. record i { status = IntentStatus.active })
        (update_where (falls_asleep later agents) (λ i. record i { status = IntentStatus.dormant })
          intents))
    ∙ count-update_where (λ i. q (run_out later i)) (wakes_up later agents)
        (λ i. record i { status = IntentStatus.active })
        (update_where (falls_asleep later agents) (λ i. record i { status = IntentStatus.dormant })
          intents)
    ∙ count-update_where (λ i. q (run_out later (woken later agents i))) (falls_asleep later agents)
        (λ i. record i { status = IntentStatus.dormant }) intents

abbrev is_live : Intent → Bool
is_live i = i.status == IntentStatus.active || i.status == IntentStatus.dormant

slept_lem :
    (later : ℕ) (agents : List Agent) (i : Intent)
    → ((slept later agents i).agent_id ≡ i.agent_id)
      × ((slept later agents i).expires_at ≡ i.expires_at)
      × (is_live (slept later agents i) ≡ is_live i)
unfolding slept
slept_lem later agents i = elim (Bool-cases (falls_asleep later agents i)) [
  | inl t ↦ rw t (refl, refl, ground (arith, t))
  | inr t ↦ rw t (refl, refl, refl)
]

woken_lem :
    (later : ℕ) (agents : List Agent) (i : Intent)
    → in_agents (is_present later) i.agent_id agents ≡ true
    → ((woken later agents i).agent_id ≡ i.agent_id)
      × ((woken later agents i).expires_at ≡ i.expires_at)
      × (is_live (woken later agents i) ≡ is_live i)
      × (is_active (woken later agents i)
          ≡ (is_active (woken later agents i) || is_running later (woken later agents i)))
unfolding woken
woken_lem later agents i h = elim (Bool-cases (wakes_up later agents i)) [
  | inl t ↦ rw t (refl, refl, ground (arith, t), ground (arith, t, h))
  | inr t ↦ rw t (refl, refl, refl, ground (arith, t, h))
]

run_out_lem :
    (later : ℕ) (i : Intent)
    → is_active i ≡ (is_active i || is_running later i)
    → ((run_out later i).agent_id ≡ i.agent_id)
      × (is_dormant (run_out later i) ≡ false)
      × (is_active (run_out later i) ≡ is_running later i)
unfolding run_out
run_out_lem later i h = elim (Bool-cases (runs_out later i)) [
  | inl t ↦ rw t (refl, refl, ground (arith, t))
  | inr t ↦ rw t (refl, ground (arith, t, h), ground (arith, t, h))
]

running-same :
    (later : ℕ) (i j : Intent)
    → i.expires_at ≡ j.expires_at
    → is_live i ≡ is_live j
    → is_running later i ≡ is_running later j
running-same later i j e l = rw e (ap (λ b. b && ltb later j.expires_at) l)

-- The job leaves no intent of a present agent dormant, and those that run are active.
kept_lem :
    (later : ℕ) (agents : List Agent) (i : Intent)
    → in_agents (is_present later) i.agent_id agents ≡ true
    → let out = run_out later (woken later agents (slept later agents i)) in
      (out.agent_id ≡ i.agent_id) × (is_dormant out ≡ false) × (is_active out ≡ is_running later i)
kept_lem later agents i h =
    let s = slept_lem later agents i in
    let here : in_agents (is_present later) (slept later agents i).agent_id agents ≡ true =
      rw s.0 h in
    let w = woken_lem later agents (slept later agents i) here in
    let o = run_out_lem later (woken later agents (slept later agents i)) w.3 in
    (
      o.0 ∙ w.0 ∙ s.0,
      o.1,
      o.2
          ∙ running-same later (woken later agents (slept later agents i)) i (w.1 ∙ s.1)
              (w.2 ∙ s.2),
    )

if-agent_id :
    (b : Bool) (st : IntentStatus) (i : Intent)
    → (if b then record i { status = st } else i).agent_id ≡ i.agent_id
if-agent_id true st i = refl
if-agent_id false st i = refl

run_out-agent_id : (later : ℕ) (i : Intent) → (run_out later i).agent_id ≡ i.agent_id
unfolding run_out
run_out-agent_id later i = if-agent_id (runs_out later i) IntentStatus.expired i

woken-agent_id :
    (later : ℕ) (agents : List Agent) (i : Intent) → (woken later agents i).agent_id ≡ i.agent_id
unfolding woken
woken-agent_id later agents i = if-agent_id (wakes_up later agents i) IntentStatus.active i

kept-agent_id :
    (later : ℕ) (agents : List Agent) (i : Intent)
    → (run_out later (woken later agents (slept later agents i))).agent_id ≡ i.agent_id
kept-agent_id later agents i =
    run_out-agent_id later (woken later agents (slept later agents i))
    ∙ woken-agent_id later agents (slept later agents i)
    ∙ (slept_lem later agents i).0

kept-of_agent :
    (agent_id : String) (later : ℕ) (agents : List Agent) (i : Intent)
    → in_agents (is_present later) agent_id agents ≡ true
    → (of_agent agent_id is_dormant (run_out later (woken later agents (slept later agents i)))
        ≡ false)
      × (of_agent agent_id is_active (run_out later (woken later agents (slept later agents i)))
          ≡ of_agent agent_id (is_running later) i)
kept-of_agent agent_id later agents i h = elim (Bool-cases (i.agent_id == agent_id)) [
  | inl t ↦
      let k = kept_lem later agents i (rw ((eq_iff i.agent_id agent_id).0 t) h) in
      let same = ap (λ x. x == agent_id) k.0 in (ground (arith, k.1), ground (arith, same, t, k.2))
  | inr t ↦
      let same = ap (λ x. x == agent_id) (kept-agent_id later agents i) in
      (ground (arith, same, t), ground (arith, same, t))
]

pub maintain_intents-wakes :
    (agent_id : String) (later : ℕ) (agents : List Agent) (intents : List Intent)
    → in_agents (is_present later) agent_id agents ≡ true
    → (count (of_agent agent_id is_dormant) (maintain_intents later agents intents) ≡ 0)
      × (count (of_agent agent_id is_active) (maintain_intents later agents intents)
          ≡ count (of_agent agent_id (is_running later)) intents)
maintain_intents-wakes agent_id later agents intents h = (
  count-maintain_intents (of_agent agent_id is_dormant) later agents intents
      ∙ count_none
          (λ i.
            of_agent agent_id is_dormant
              (run_out later (woken later agents (slept later agents i))))
          intents (λ i. (kept-of_agent agent_id later agents i h).0),
  count-maintain_intents (of_agent agent_id is_active) later agents intents
      ∙ count_ext
          (λ i.
            of_agent agent_id is_active (run_out later (woken later agents (slept later agents i))))
          (of_agent agent_id (is_running later)) intents
          (λ i. (kept-of_agent agent_id later agents i h).1),
)
