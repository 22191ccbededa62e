-- ===== src/Fx/Claims/Processes/Delivery.antt =====
-- The steps of one process against the code that they stand for: a delivery to the claiming handler.
use ofm_mail_service.Prelude.{◌≡◌, refl, String, ◌∷◌, Bool, true, false, Option, none, some}
use ofm_mail_service.Errors.{Err}
use ofm_mail_service.Effect.{Result, ok, err}
use ofm_mail_service.EventBroker.{MessageHandler}
use ofm_mail_service.Fx.Claims.{
  Redis, event_key, redis_event_store, claiming_handler, claimed, settle_claim,
}
use ofm_mail_service.Fx.Claims.Processes.{
  Store, Place, idle, handling, completing, releasing, put, Move, granted, refused, claim_lost,
  answer_lost, succeeds, fails, completes, completion_lost, releases, release_lost,
}

-- What becomes of a command: it is answered, or it fails, before or after Redis has run it.
pub data Fate : Type 0 where
  served : Fate
  lost : Err → Fate
  unanswered : Err → Fate

abbrev set_nx : Fate → Option String → String → String → Store → Result Bool × Store
set_nx served none k v st = (ok true, put k (some v) st)
set_nx served (some u) k v st = (ok false, st)
set_nx (lost e) u k v st = (err e, st)
set_nx (unanswered e) none k v st = (err e, put k (some v) st)
set_nx (unanswered e) (some u) k v st = (err e, st)

abbrev write : Fate → String → Option String → Store → Result (Unit {0}) × Store
write served k v st = (ok tt, put k v st)
write (lost e) k v st = (err e, st)
write (unanswered e) k v st = (err e, put k v st)

-- the fates of SETNX, SET and DEL
abbrev pub redis : Fate → Fate → Fate → Redis Store
redis claim complete release = record {
  set_nx = λ k v _ st. set_nx claim (st.keys k) k v st;
  set = λ k v _ st. write complete k (some v) st;
  del = λ k st. write release k none st;
}

-- Steps of one process with nothing between them.
pub data Moves (st : Store) (p : Place) : Store → Place → Type 0 where
  none_more : Moves st p st p
  and_then :
      {st' st'' : Store} {p' p'' : Place}
      → Moves st p st' p'
      → Move st' p' st'' p''
      → Moves st p st'' p''

-- A handler that answers `r` and leaves Redis alone.
abbrev noted : Result (Unit {0}) → String → Store → Store
noted (ok _) k st = record st { handled = k ∷ st.handled }
noted (err e) k st = st

module _ {Bytes : Type 0} (event_id : String → Bytes → String) (claim complete release : Fate)
    (r : Result (Unit {0})) (subject : String) (payload : Bytes) where
  abbrev key : String
  key = event_key (event_id subject payload)

  abbrev pub handler : MessageHandler Store Bytes
  handler topic bytes st = (r, noted r (event_key (event_id topic bytes)) st)

  abbrev pub deliver : Store → Result (Unit {0}) × Store
  deliver =
      claiming_handler event_id (some (redis_event_store (redis claim complete release))) handler
        subject payload

  -- the last call, behind the handler
  settles :
      (r' : Result (Unit {0})) (st : Store) (c d : Fate)
      → let st' = noted r' key st in
        (p : Place) × Move st (handling key) st' p
        × Move st' p
            (settle_claim event_id
              (redis_event_store (redis claim c d))
              (event_id subject payload)
              r'
              st').1
            idle
  unfolding settle_claim redis_event_store
  settles (ok _) st served d = (completing key, succeeds key, completes key)
  settles (ok _) st (lost e) d = (completing key, succeeds key, completion_lost key)
  settles (ok _) st (unanswered e) d = (completing key, succeeds key, completes key)
  settles (err x) st c served = (releasing key, fails key, releases key)
  settles (err x) st c (lost e) = (releasing key, fails key, release_lost key)
  settles (err x) st c (unanswered e) = (releasing key, fails key, releases key)

  claim_moves :
      (f : Fate) (u : Option String) (st : Store)
      → st.keys key ≡ u
      → let (answer, st') = set_nx f u key "processing" st in
        Moves st idle
          (claimed event_id
            (redis_event_store (redis claim complete release))
            handler
            subject
            payload
            answer
            st').1
          idle
  unfolding claimed
  claim_moves served none st e =
      let (p, first, last) = settles r (put key (some "processing") st) complete release in
      and_then (and_then (and_then none_more (granted key e)) first) last
  claim_moves served (some u) st e = and_then none_more (refused key (λ n. cc))
  claim_moves (lost x) u st e = and_then none_more claim_lost
  claim_moves (unanswered x) none st e = and_then none_more (answer_lost key e)
  claim_moves (unanswered x) (some u) st e = and_then none_more claim_lost

  -- Whatever its handler answers and whatever becomes of its commands, a delivery to the claiming
  -- handler is a sequence of steps of one process, from idle to idle, with the same effect on Redis.
  pub deliver_moves : (st : Store) → Moves st idle (deliver st).1 idle
  unfolding claiming_handler redis_event_store
  deliver_moves st = claim_moves claim (st.keys key) st refl
