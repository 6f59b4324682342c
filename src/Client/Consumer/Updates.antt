-- ===== src/Client/Consumer/Updates.antt =====
-- What the lambdas of src/client/usubscription/v3/Consumer.cpp keep of the messages that they get.
use mathlib.Core.List.{foldl}
use up_cpp.Common.{
  eq_bytes, ◌≡◌, refl, sym, Bool, Bool-cases, inl, inr, Option, none, some, List, [], ◌∷◌,
  if◌then◌else◌,
}
use up_cpp.Proto.{UUri, UMessage}
use up_cpp.Communication.RpcExpiry.{MessageOrStatus}
use up_cpp.Client.Consumer.{
  Messages, Consumer, on_update, on_response, is_topic, update_of, response_of,
}

module _ {A B : Type 0} (parse : A → Option B) (test : B → Bool) where
  abbrev prepend : Option B → List B → List B
  prepend none rest = rest
  prepend (some b) rest = if test b then b ∷ rest else rest

  -- What parses and passes the test, in order.
  abbrev pub passing : List A → List B
  passing [] = []
  passing (a ∷ rest) = prepend (parse a) (passing rest)

abbrev pub last_or : {A : Type 0} → A → List A → A
last_or a [] = a
last_or a (b ∷ rest) = last_or b rest

-- An object that keeps the last of the things heard that pass its test, and nothing else of them.
module _ {Self A B : Type 0} (parse : A → Option B) (test : Self → B → Bool) (kept : Self → B)
    (with_kept : Self → B → Self) (kept_back : (c : Self) → with_kept c (kept c) ≡ c)
    (kept_last : (c : Self) (b b' : B) → with_kept (with_kept c b) b' ≡ with_kept c b')
    (kept_now : (c : Self) (b : B) → kept (with_kept c b) ≡ b)
    (same_test : (c : Self) (b : B) → test (with_kept c b) ≡ test c) where
  abbrev hear : Self → Option B → Self
  hear c none = c
  hear c (some b) = if test c b then with_kept c b else c

  Keeps : List A → Type 0
  Keeps heard =
      (c : Self)
      → foldl (λ c a. hear c (parse a)) c heard
        ≡ with_kept c (last_or (kept c) (passing parse (test c) heard))

  heard_one :
      (rest : List A)
      → Keeps rest
      → (c : Self) (o : Option B)
      → foldl (λ c a. hear c (parse a)) (hear c o) rest
        ≡ with_kept c (last_or (kept c) (prepend parse (test c) o (passing parse (test c) rest)))
  unfolding Keeps
  heard_one rest ih c none = ih c
  heard_one rest ih c (some b) = elim (Bool-cases (test c b)) [
    | inl e ↦ rw e (
        rw (ih (with_kept c b), same_test c b, kept_now c b)
          (kept_last c b (last_or b (passing parse (test c) rest))))
    | inr e ↦ rw e (ih c)
  ]

  last-Keeps : (heard : List A) → Keeps heard
  unfolding Keeps
  last-Keeps [] c = sym (kept_back c)
  last-Keeps (a ∷ rest) c = heard_one rest (last-Keeps rest) c (parse a)

module _ {Update Response : Type 0} (messages : Messages Update Response) where
  -- Whether a URI is serialized like a consumer's topic.
  abbrev pub is_same : Consumer Update Response → UUri → Bool
  is_same c uri = eq_bytes (messages.uri_bytes uri) (messages.uri_bytes c.subscription_topic)

  -- The updates and responses about a consumer's topic.
  abbrev pub topic_updates : Consumer Update Response → List UMessage → List Update
  topic_updates c =
      passing (λ (m : UMessage). update_of messages m.payload)
        (λ u. is_same c (messages.update_topic u))

  abbrev pub topic_responses : Consumer Update Response → List MessageOrStatus → List Response
  topic_responses c = passing (response_of messages) (λ r. is_same c (messages.response_topic r))

  -- After any messages a consumer holds the last update about its topic among them, or what it
  -- held if there is none, and after any responses likewise the last response about its topic;
  -- messages that are empty, do not parse or are about another topic, and statuses, change nothing.
  pub heard_last :
      (c : Consumer Update Response) (heard : List UMessage) (answers : List MessageOrStatus)
      → (foldl (on_update messages) c heard ≡ record c {
        subscription_update = last_or c.subscription_update (topic_updates c heard);
      })
        × (foldl (on_response messages) c answers ≡ record c {
          subscription_response = last_or c.subscription_response (topic_responses c answers);
        })
  unfolding on_update on_response Keeps
  heard_last c heard answers = (
    last-Keeps (λ (m : UMessage). update_of messages m.payload)
        (λ c u. is_topic messages c (messages.update_topic u)) (λ c. c.subscription_update)
        (λ c u. record c { subscription_update = u }) (λ c. refl) (λ c b b'. refl) (λ c b. refl)
        (λ c b. refl) heard c,
    last-Keeps (response_of messages) (λ c r. is_topic messages c (messages.response_topic r))
        (λ c. c.subscription_response) (λ c r. record c { subscription_response = r }) (λ c. refl)
        (λ c b b'. refl) (λ c b. refl) (λ c b. refl) answers c,
  )
