-- ===== src/Lifecycle/Polling.antt =====
-- A poll and a search leave sessions and requests alone: src/babeltower/routes/inbox.py and
-- src/babeltower/routes/search.py.
use babeltower.Prelude.{ℕ, String, refl, Option, List}
use babeltower.Models.{Agent}
use babeltower.World.{World, Value}
use babeltower.Exec.{Result}
use babeltower.Crypto.{CryptoLib}
use babeltower.Schemas.{SearchRequest}
use babeltower.Embeddings.{embed_intent}
use babeltower.Embeddings.Retry.{embed_intent-LeavesDb}
use babeltower.Search.{search_intents, search}
use babeltower.Inbox.{load_inbox, get_inbox}
use babeltower.Lifecycle.Steps.{Steps-other}
use babeltower.Lifecycle.Sound.{Fits, After, After-commit}
use babeltower.Lifecycle.Silent.{Silent, Silent-bind}

pub get_inbox-After :
    (agent : Agent) (now : ℕ) (w : World) → Fits w → After w (get_inbox agent now w)
unfolding get_inbox load_inbox
get_inbox-After agent now w f = After-commit _ refl f (Steps-other refl refl)

module _ (lib : CryptoLib) (voyage : String → String → ℕ → Result (List String)) where
  pub embed_intent-Silent :
      (seeking offering constraints input_type : String) (now : ℕ) (w : World)
      → Silent w (embed_intent lib voyage seeking offering constraints input_type now w)
  embed_intent-Silent seeking offering constraints input_type now w =
      let same = embed_intent-LeavesDb lib voyage seeking offering constraints input_type now w in
      record { same = record { store = same.0; work = same.1 } }

  pub search-Silent :
      (str : Value → String) (field_text : String → String → Option String)
      (distance : String → String → ℕ) (agent : Agent) (body : SearchRequest) (now : ℕ) (w : World)
      → Silent w (search str field_text distance lib voyage agent body now w)
  unfolding search search_intents
  search-Silent str field_text distance agent body now w =
      Silent-bind
        (embed_intent lib voyage body.query_intent.seeking body.query_intent.offering
          body.query_intent.constraints "query" now)
        _ w
        (embed_intent-Silent body.query_intent.seeking body.query_intent.offering
          body.query_intent.constraints "query" now w)
        λ embedding v. record { same = record { store = refl; work = refl } }
