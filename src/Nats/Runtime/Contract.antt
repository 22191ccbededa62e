-- ===== src/Nats/Runtime/Contract.antt =====
-- The contract of a pull consumer with its client: a bag of the messages that are out for handling,
-- and whether more were asked for. The contract knows no goroutine, no channel and no order of the
-- messages that are out.
use mathlib.Core.Quot
use mathlib.Core.Quot.{Quot, Quot-set}
use ofm_mail_service.Prelude.{
  ◌≡◌, refl, sym, ap, ◌∙◌, List, [], ◌∷◌, ◌++◌, Bool, true, false, arith, count, count-append,
  length, length-append,
}

-- Two lists have the same messages, as often.
abbrev pub SameMessages : {Msg : Type 0} → List Msg → List Msg → Type 0
SameMessages {Msg} xs ys = (p : Msg → Bool) → count p xs ≡ count p ys

abbrev pub Bag : Type 0 → Type 0
Bag Msg = Quot (SameMessages {Msg = Msg})

-- What a client of the consumer sees.
pub record Contract (Msg : Type 0) : Type 0 where
  pub out : Bag Msg
  pub asked : Bool
  pub acked : List Msg
  pub naked : List Msg
  pub given_up : List Msg
  pub cancelled : Bool

module _ {Msg : Type 0} where
  abbrev pub bag : List Msg → Bag Msg
  bag xs = Quot.mk xs

  pub SameMessages-append :
      (msgs xs ys : List Msg) → SameMessages xs ys → SameMessages (msgs ++ xs) (msgs ++ ys)
  SameMessages-append msgs xs ys h p =
      omega (arith, h p, count-append p msgs xs, count-append p msgs ys)

  -- the bag with more messages
  unfoldable pub put : List Msg → Bag Msg → Bag Msg
  put msgs =
      Quot.lift Quot-set (λ xs. bag (msgs ++ xs))
        (λ xs ys h. Quot.sound (SameMessages-append msgs xs ys h))

  -- The moves of the contract. Messages come out only where they were asked for, which a cancelled
  -- consumer does no more. A message that is out comes back acknowledged or rejected, or it is given
  -- up, which only a cancelled consumer does.
  pub data Moves (a : Contract Msg) : Contract Msg → Type 0 where
    stopped : Moves a (record a { cancelled = true })
    requested : a.cancelled ≡ false → a.asked ≡ false → Moves a (record a { asked = true })
    unanswered : a.asked ≡ true → Moves a (record a { asked = false })
    answered :
        (msgs : List Msg)
        → a.asked ≡ true
        → Moves a (record a { asked = false; out = put msgs a.out })
    acknowledged :
        (msg : Msg) (out : Bag Msg)
        → a.out ≡ put (msg ∷ []) out
        → Moves a (record a { out = out; acked = msg ∷ a.acked })
    rejected :
        (msg : Msg) (out : Bag Msg)
        → a.out ≡ put (msg ∷ []) out
        → Moves a (record a { out = out; naked = msg ∷ a.naked })
    given_up :
        (msgs : List Msg) (out : Bag Msg)
        → a.cancelled ≡ true
        → a.out ≡ put msgs out
        → Moves a (record a { out = out; given_up = msgs ++ a.given_up })

  -- a consumer at its start
  abbrev pub nothing_out : Contract Msg
  nothing_out = record {
    out = bag [];
    asked = false;
    acked = [];
    naked = [];
    given_up = [];
    cancelled = false;
  }

  -- What the contract allows of a consumer, as the past of what it is now: from each of these states
  -- to the next there is a move, or none at all.
  pub data Allowed : Contract Msg → List (Contract Msg) → Type 0 where
    nothing : Allowed nothing_out []
    still : {a : Contract Msg} {past : List (Contract Msg)} → Allowed a past → Allowed a (a ∷ past)
    next :
        {a b : Contract Msg} {past : List (Contract Msg)}
        → Allowed a past
        → Moves a b
        → Allowed b (a ∷ past)

  put_nothing : (b : Bag Msg) → put [] b ≡ b
  unfolding put
  put_nothing = Quot.ind (λ b. Quot-set _ _) (λ xs. refl)

  given_up-keeps :
      (msgs given : List Msg) (b out : Bag Msg)
      → b ≡ put msgs out
      → msgs ++ given ≡ given
      → (more : List Msg) × (out ≡ put more b)
  given_up-keeps [] given b out e same = ([], sym (put_nothing out) ∙ sym e ∙ sym (put_nothing b))
  given_up-keeps (msg ∷ msgs) given b out e same =
      absurd (omega (arith, ap length same, length-append (msg ∷ msgs) given))

  -- A move that acknowledges, rejects and gives up nothing leaves out what is out: the contract
  -- loses no message.
  pub Moves-keeps :
      {a b : Contract Msg}
      → Moves a b
      → b.acked ≡ a.acked
      → b.naked ≡ a.naked
      → b.given_up ≡ a.given_up
      → (more : List Msg) × (b.out ≡ put more a.out)
  Moves-keeps {a} stopped k n g = ([], sym (put_nothing a.out))
  Moves-keeps {a} (requested c o) k n g = ([], sym (put_nothing a.out))
  Moves-keeps {a} (unanswered o) k n g = ([], sym (put_nothing a.out))
  Moves-keeps (answered msgs o) k n g = (msgs, refl)
  Moves-keeps (acknowledged msg out e) k n g = absurd (omega (arith, ap length k))
  Moves-keeps (rejected msg out e) k n g = absurd (omega (arith, ap length n))
  Moves-keeps {a} (given_up msgs out c e) k n g = given_up-keeps msgs a.given_up a.out out e g
