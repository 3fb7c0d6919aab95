-- ===== src/Examples/Accounts.antt =====
-- The theorems on deleted accounts and on refreshed intents at concrete inputs.
use babeltower.Prelude.{◌≡◌, ◌≢◌, refl, suc, some, [], ◌∷◌, find, select, string_eq}
use babeltower.Models.{days, Intent, IntentStatus}
use babeltower.World.{World}
use babeltower.Exec.{ok, run, reply}
use babeltower.Clock.{Moment}
use babeltower.Auth.{verify_signed_request}
use babeltower.Agents.{delete_agent}
use babeltower.Agents.Shut.{delete_agent-IsShut}
use babeltower.Intents.{count_active_intents}
use babeltower.Intents.Owned.{refreshed, refresh_intent}
use babeltower.Intents.Refreshed.{refresh_intent-Exceeds}
use babeltower.Examples.{small_world, small_db, alice, bob, plain_lib, signed_request, an_intent}

-- Bob signs a request after Alice has left.
delete_agent-IsShut_example : bob.pubkey ≢ alice.pubkey
unfolding find select verify_signed_request delete_agent
delete_agent-IsShut_example =
    delete_agent-IsShut plain_lib (λ text. Moment.aware (days 10)) alice alice bob
      (record signed_request { x_agent_pubkey = some "key-b" }) (days 10) (days 10) small_world refl
      refl

abbrev asleep : Intent
asleep = record (an_intent "i" "a") { status = IntentStatus.dormant }

abbrev sleepy_world : World
sleepy_world = record small_world {
  store = record small_db { intents = asleep ∷ an_intent "k" "a" ∷ [] };
}

refresh_intent-Exceeds_example :
    let left = run (refresh_intent "i" alice (days 10)) sleepy_world in
    (left.0 ≡ ok (reply (refreshed (days 10) asleep)))
    × (count_active_intents "a" left.1.store ≡ suc (count_active_intents "a" sleepy_world.store))
unfolding find
refresh_intent-Exceeds_example =
    refresh_intent-Exceeds "i" alice (days 10) asleep sleepy_world refl refl refl refl
