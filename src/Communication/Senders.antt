-- ===== src/Communication/Senders.antt =====
-- What a publisher of src/communication/Publisher.cpp and a source of
-- src/communication/NotificationSource.cpp send.
use mathlib.Core.Path.{subst}
use up_cpp.Common.{
  ◌≡◌, refl, ◌∙◌, inr, true, false, Option, none, some, List, [], ◌∷◌, arith, value_or,
}
use up_cpp.Common.Int.{ℤ}
use up_cpp.Common.Outcome.{ok, >>=-eq-ok, ok-injective}
use up_cpp.Proto.{UUri, UMessage, Protobuf, IsDocumented}
use up_cpp.Validator.Message.{Readings}
use up_cpp.Builder.Uuid.{Entropy}
use up_cpp.Builder.Payload.{Payload}
use up_cpp.Builder.Message.{UMessageBuilder, with_payload_format, with_priority, with_ttl, stamped}
use up_cpp.Builder.Message.Setters.{
  Setter, priority, ttl, payload_format, apply, apply_all, apply_all-cons,
}
use up_cpp.Builder.Message.Built.{IsPrompt}
use up_cpp.Builder.Message.Chains.{publishes, make, built_valid}
use up_cpp.Builder.Message.Limits.{format_enforced}
use up_cpp.Transport.World.{World, sent}
use up_cpp.Transport.{UTransport}
use up_cpp.Transport.Contract.{logged, accepted_send}
use up_cpp.Communication.Publisher.{Publisher, new_publisher, publish, apply_if}

abbrev pub ttl_setters : Option ℤ → List Setter
ttl_setters none = []
ttl_setters (some t) = ttl t ∷ []

module _ (pb : Protobuf) where
  -- What the constructor of a publisher has done when it returns.
  record Made (t : UTransport) (topic : UUri) (format : ℤ) (p : Publisher) : Type 0 where
    start : UMessageBuilder
    setters : List Setter
    made : make pb (publishes topic) ≡ ok start
    chained : apply_all pb setters start ≡ ok p.publish_builder
    expects : p.publish_builder.expected_payload_format ≡ some format
    known : pb.payload_format_is_valid format ≡ true
    transport : p.transport ≡ some t

  with_format_facts :
      (b b' : UMessageBuilder) (f : ℤ)
      → IsDocumented pb
      → with_payload_format pb b f ≡ ok b'
      → (b'.expected_payload_format ≡ some f) × (pb.payload_format_is_valid f ≡ true)
  unfolding with_payload_format
  with_format_facts b b' f doc e = ground (arith, doc.format_range f)

  pub with_priority_facts :
      (b b' : UMessageBuilder) (p : ℤ)
      → with_priority pb b p ≡ ok b'
      → b'.expected_payload_format ≡ b.expected_payload_format
  unfolding with_priority
  with_priority_facts b b' p e = ground arith

  pub with_ttl_facts :
      (b b' : UMessageBuilder) (o : Option ℤ)
      → apply_if (with_ttl pb) b o ≡ ok b'
      → (b'.expected_payload_format ≡ b.expected_payload_format)
        × (apply_all pb (ttl_setters o) b ≡ ok b')
  unfolding with_ttl apply apply_all
  with_ttl_facts b b' none e = (ground (arith, e), e)
  with_ttl_facts b b' (some t) e = (ground (arith, e), rw e refl)

  new_publisher-Made :
      IsDocumented pb
      → (t : UTransport) (topic : UUri) (format : ℤ) (prio time : Option ℤ) (p : Publisher)
      → new_publisher pb (some t) topic format prio time ≡ ok p
      → Made t topic format p
  unfolding new_publisher make apply
  new_publisher-Made doc t topic format prio time p e =
      let (b, first, rest) = >>=-eq-ok _ _ e in
      let (b', second, rest') = >>=-eq-ok _ _ rest in
      let (b'', third, rest'') = >>=-eq-ok _ _ rest' in
      let (c, fourth, last) = >>=-eq-ok _ _ rest'' in
      let (expects, known) = with_format_facts b b' format doc second in
      let (kept, chain) = with_ttl_facts b'' c time fourth in
      let chained = apply_all-cons pb (payload_format format) _ b b' c second (
        apply_all-cons pb (priority (value_or prio pb.priority_cs1)) (ttl_setters time) b' b'' c
          third chain) in
      subst (Made t topic format) (ok-injective last) (record {
        start = b;
        setters =
            payload_format format ∷ priority (value_or prio pb.priority_cs1) ∷ ttl_setters time;
        made = first;
        chained = chained;
        expects = kept ∙ with_priority_facts b' b'' _ third ∙ expects;
        known = known;
        transport = refl;
      })

  -- The builder's attributes with a new ID, the payload's format and its bytes.
  abbrev pub carrying : UMessageBuilder → Payload → Entropy → UMessage
  carrying b payload system = record {
    attributes = record (stamped b system) { payload_format = payload.payload.1 };
    payload = some payload.payload.0;
  }

  -- A publisher made with a transport sends every payload of its format that was not moved from, if
  -- the check on sending reads the clock promptly: one message, with the payload's bytes and format
  -- and the builder's attributes, goes to the implementation, whose status is the answer.
  pub publisher_sends :
      IsDocumented pb
      → (t : UTransport) (topic : UUri) (format : ℤ) (prio time : Option ℤ) (p : Publisher)
      → new_publisher pb (some t) topic format prio time ≡ ok p
      → (payload : Payload) (system : Entropy) (now : Readings) → IsPrompt system now
      → payload.moved ≡ false
      → payload.payload.1 ≡ format
      → (w : World)
      → publish pb p payload system now w ≡ (
        ok (t.send_impl w.calls (carrying p.publish_builder payload system)),
        logged w (sent (carrying p.publish_builder payload system)),
      )
  unfolding publish
  publisher_sends doc t topic format prio time p e payload system now prompt unmoved right w =
      let facts = new_publisher-Made doc t topic format prio time p e in
      let m = carrying p.publish_builder payload system in
      let built =
        (format_enforced p.publish_builder format payload system m facts.expects).1.1
          (unmoved, right, rw right refl) in
      let valid =
        built_valid pb doc system now prompt facts.setters facts.start p.publish_builder m
          facts.chained (inr (payload, rw right facts.known, built)) (publishes topic) facts.made
          tt in
      rw (built, facts.transport) (accepted_send pb t now m w valid)
