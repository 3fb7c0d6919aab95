-- ===== src/Agents/Shut.antt =====
-- A deleted account, src/babeltower/routes/agents.py, and the authentication of src/babeltower/auth.py.
use babeltower.Prelude.{
  ℕ, String, ◌≡◌, ◌≢◌, refl, sym, ap, subst, ◌∙◌, some, true, [], ◌∷◌, inl, inr, ◌==◌, string_eq,
  find, find-update_row, In, In-find, In-select-from, In-select-to,
}
use babeltower.Models.{Agent, AgentStatus}
use babeltower.World.{World}
use babeltower.Exec.{ok, run, begin}
use babeltower.Clock.{Moment}
use babeltower.Crypto.{CryptoLib}
use babeltower.Auth.{Request, header_or_empty, verify_signed_request}
use babeltower.Auth.Accepted.{IsAuthentic, verify_signed_request-IsAuthentic}
use babeltower.Agents.{erased, delete_account_db, delete_agent}

-- A row of the table that is deleted keeps its key from being let through.
shut :
    (lib : CryptoLib) (from_isoformat : String → Moment) (r : Request) (now : ℕ) (w : World)
    (old agent : Agent)
    → In old w.work.agents
    → old.status ≡ AgentStatus.deleted
    → IsAuthentic lib from_isoformat r now w agent
    → agent.pubkey ≢ old.pubkey
shut lib from_isoformat r now w old agent here gone h same =
    let key = header_or_empty r.x_agent_pubkey in
    let own =
      (In-select-to (λ a. a.pubkey == key) w.work.agents {x = agent}
        (subst (In agent) (sym h.row) (inl refl))).1 in
    let named : (old.pubkey == key) ≡ true = subst (λ k. (k == key) ≡ true) same own in
    let found : In old (agent ∷ []) =
      subst (In old) h.row
        (In-select-from (λ a. a.pubkey == key) w.work.agents {x = old} here named) in
    elim found [ inl e ↦ h.not_deleted (sym (ap (λ a. a.status) e) ∙ gone) | inr i ↦ i.lower ]

-- After DELETE /agent no request is let through as an agent with the key of the account, however it
-- is signed. The agent has a row.
pub delete_agent-IsShut :
    (lib : CryptoLib) (from_isoformat : String → Moment) (caller old agent : Agent) (r : Request)
    (now later : ℕ) (w : World)
    → find (λ a. a.id == caller.id) w.store.agents ≡ some old
    → (run (verify_signed_request lib from_isoformat r later) (run (delete_agent caller now) w).1).0
      ≡ ok agent
    → agent.pubkey ≢ old.pubkey
unfolding delete_agent delete_account_db
delete_agent-IsShut lib from_isoformat caller old agent r now later w e h =
    let left = (run (delete_agent caller now) w).1 in
    let row = find-update_row (λ a. a.id == caller.id) erased w.store.agents (λ a k. k) e in
    shut lib from_isoformat r later (begin left) (erased old) agent
      (In-find (λ a. a.id == caller.id) left.store.agents row) refl
      (verify_signed_request-IsAuthentic lib from_isoformat r later (begin left) agent h)
