-- ===== src/Fx/Claims/Processes.antt =====
-- Several processes that consume with the claims of internal/fx/messaging.go, in any order of their
-- calls. Each of them runs the claiming handler on one event at a time, and stands between two of its
-- calls; a command of Redis is one step, and a process may crash. The relation is over event keys.
pub mod Exclusion
pub mod Blocking
pub mod Delivery
mod Tests
use ofm_mail_service.Prelude.{
  ◌≡◌, ◌≢◌, String, List, [], ◌∷◌, ◌++◌, Option, none, some, ◌==◌, if◌then◌else◌,
}

-- The keys in Redis, the events whose handler has returned nil, and the claims that have run out of
-- their time.
pub record Store : Type 0 where
  pub keys : String → Option String
  pub handled : List String
  pub lapsed : List String

-- Where a process stands, with the key of its event.
pub data Place : Type 0 where
  -- before `Claim`, or behind the return of the handler
  idle : Place
  -- in the handler that was wrapped
  handling : String → Place
  -- before `Complete`, and before `Release`
  completing : String → Place
  releasing : String → Place

abbrev pub put : String → Option String → Store → Store
put k v st = record st { keys = λ j. if k == j then v else st.keys j }

-- One step of one process. A command whose answer is lost has changed the keys or not.
pub data Move (st : Store) : Place → Store → Place → Type 0 where
  granted :
      (k : String) → st.keys k ≡ none → Move st idle (put k (some "processing") st) (handling k)
  refused : (k : String) → st.keys k ≢ none → Move st idle st idle
  claim_lost : Move st idle st idle
  answer_lost : (k : String) → st.keys k ≡ none → Move st idle (put k (some "processing") st) idle
  succeeds :
      (k : String) → Move st (handling k) (record st { handled = k ∷ st.handled }) (completing k)
  fails : (k : String) → Move st (handling k) st (releasing k)
  completes : (k : String) → Move st (completing k) (put k (some "done") st) idle
  completion_lost : (k : String) → Move st (completing k) st idle
  releases : (k : String) → Move st (releasing k) (put k none st) idle
  release_lost : (k : String) → Move st (releasing k) st idle

pub record System : Type 0 where
  pub store : Store
  pub places : List Place

pub data Step (s : System) : System → Type 0 where
  moves :
      (before after : List Place) {p p' : Place} {st : Store}
      → s.places ≡ before ++ p ∷ after
      → Move s.store p st p'
      → Step s (record { store = st; places = before ++ p' ∷ after })
  crashes :
      (before after : List Place) (p : Place)
      → s.places ≡ before ++ p ∷ after
      → Step s (record s { places = before ++ idle ∷ after })
  -- the time of `Claim` is over; `Complete` sets the key for ever
  lapses :
      (k : String)
      → s.store.keys k ≡ some "processing"
      → Step s (record s { store = record (put k none s.store) { lapsed = k ∷ s.store.lapsed } })

-- `n` processes over an empty Redis
abbrev pub idle_places : List (Unit {0}) → List Place
idle_places [] = []
idle_places (_ ∷ rest) = idle ∷ idle_places rest

pub data Reachable (processes : List (Unit {0})) : System → Type 0 where
  started : Reachable processes (record {
    store = record { keys = λ _. none; handled = []; lapsed = [] };
    places = idle_places processes;
  })
  moved : {s s' : System} → Reachable processes s → Step s s' → Reachable processes s'
