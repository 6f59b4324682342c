-- ===== src/Communication/Notifications.antt =====
-- What a source of src/communication/NotificationSource.cpp sends.
use mathlib.Core.Path.{subst}
use up_cpp.Common.{
  ap, ◌≡◌, refl, sym, ◌∙◌, inr, true, false, Option, none, some, List, ◌∷◌, arith, value_or,
}
use up_cpp.Common.Int.{ℤ, eq_ℤ_refl}
use up_cpp.Common.Outcome.{ok, >>=-eq-ok, ok-injective}
use up_cpp.Proto.{UUri, Protobuf, IsDocumented}
use up_cpp.Validator.Message.{Readings}
use up_cpp.Builder.Uuid.{Entropy}
use up_cpp.Builder.Payload.{Payload, build_move}
use up_cpp.Builder.Message.{
  UMessageBuilder, notification_builder, with_payload_format, build_payload, fill, new_builder,
  require_uri,
}
use up_cpp.Builder.Message.Setters.{
  Setter, priority, payload_format, apply, apply_all, apply_all-cons,
}
use up_cpp.Builder.Message.Built.{IsPrompt}
use up_cpp.Builder.Message.Chains.{notifies, make, built_valid}
use up_cpp.Transport.World.{World, sent}
use up_cpp.Transport.{UTransport}
use up_cpp.Transport.Contract.{logged, accepted_send}
use up_cpp.Communication.Publisher.{apply_if}
use up_cpp.Communication.NotificationSource.{
  NotificationSource, new_notification_source, notify_payload,
}
use up_cpp.Communication.Senders.{carrying, ttl_setters, with_priority_facts, with_ttl_facts}

module _ (pb : Protobuf) where
  -- What the constructor of a source has done when it returns.
  record Made (t : UTransport) (source sink : UUri) (format : Option ℤ) (s : NotificationSource)
      : Type 0 where
    start : UMessageBuilder
    setters : List Setter
    made : make pb (notifies source sink) ≡ ok start
    chained : apply_all pb setters start ≡ ok s.notify_builder
    expects : s.notify_builder.expected_payload_format ≡ format
    transport : s.transport ≡ t

  start_facts :
      (source sink : UUri) (b : UMessageBuilder)
      → notification_builder pb source sink ≡ ok b
      → b.expected_payload_format ≡ none
  unfolding notification_builder new_builder require_uri
  start_facts source sink b e = ground (arith, e)

  format_facts :
      (b b' c : UMessageBuilder) (o time : Option ℤ)
      → apply_if (with_payload_format pb) b o ≡ ok b'
      → apply_all pb (ttl_setters time) b' ≡ ok c
      → b.expected_payload_format ≡ none
      → (b'.expected_payload_format ≡ o) × ((ss : List Setter) × (apply_all pb ss b ≡ ok c))
  unfolding with_payload_format apply
  format_facts b b' c none time e f h =
      let same : b ≡ b' = ok-injective e in
      (
        ap (λ x. x.expected_payload_format) (sym same) ∙ h,
        (ttl_setters time, subst (λ x. apply_all pb (ttl_setters time) x ≡ ok c) (sym same) f),
      )
  format_facts b b' c (some t) time e f h = (
    ground (arith, e),
    (
      payload_format t ∷ ttl_setters time,
      apply_all-cons pb (payload_format t) (ttl_setters time) b b' c e f,
    ),
  )

  new_source-Made :
      (t : UTransport) (source sink : UUri) (format prio time : Option ℤ) (s : NotificationSource)
      → new_notification_source pb (some t) source sink format prio time ≡ ok s
      → Made t source sink format s
  unfolding new_notification_source make apply
  new_source-Made t source sink format prio time s e =
      let (b, first, rest) = >>=-eq-ok _ _ e in
      let (b', second, rest') = >>=-eq-ok _ _ rest in
      let (b'', third, rest'') = >>=-eq-ok _ _ rest' in
      let (c, fourth, last) = >>=-eq-ok _ _ rest'' in
      let (kept, chain) = with_ttl_facts pb b'' c time fourth in
      let plain = with_priority_facts pb b b' _ second ∙ start_facts source sink b first in
      let (expects, (ss, chain')) = format_facts b' b'' c format time third chain plain in
      subst (Made t source sink format) (ok-injective last) (record {
        start = b;
        setters = priority (value_or prio pb.priority_cs1) ∷ ss;
        made = first;
        chained =
            apply_all-cons pb (priority (value_or prio pb.priority_cs1)) ss b b' c second chain';
        expects = kept ∙ expects;
        transport = refl;
      })

  -- What a source may send: any format if it expects none, and else the expected one.
  abbrev pub Suits : Option ℤ → ℤ → Type 0
  Suits none f = Unit
  Suits (some wanted) f = f ≡ wanted

  carried :
      (b : UMessageBuilder) (payload : Payload) (system : Entropy) (o : Option ℤ)
      → b.expected_payload_format ≡ o
      → payload.moved ≡ false
      → Suits o payload.payload.1
      → (build_payload b payload system).0 ≡ ok (carrying pb b payload system)
  unfolding build_payload build_move fill
  carried b payload system none e unmoved suits = ground (arith, e, unmoved)
  carried b payload system (some f) e unmoved suits = ground (arith, e, unmoved, suits, eq_ℤ_refl f)

  -- A notification source sends every payload that was not moved from and has a known format, the
  -- expected one if the source expects one, and if the check on sending reads the clock promptly:
  -- one message, with the payload and the builder's attributes, goes to the implementation, whose
  -- status is the answer.
  pub source_sends :
      IsDocumented pb
      → (t : UTransport) (source sink : UUri) (format prio time : Option ℤ) (s : NotificationSource)
      → new_notification_source pb (some t) source sink format prio time ≡ ok s
      → (payload : Payload) (system : Entropy) (now : Readings) → IsPrompt system now
      → payload.moved ≡ false
      → pb.payload_format_is_valid payload.payload.1 ≡ true
      → Suits format payload.payload.1
      → (w : World)
      → notify_payload pb s payload system now w ≡ (
        ok (t.send_impl w.calls (carrying pb s.notify_builder payload system)),
        logged w (sent (carrying pb s.notify_builder payload system)),
      )
  unfolding notify_payload
  source_sends doc t source sink format prio time s e payload system now prompt unmoved known suits
        w =
      let facts = new_source-Made t source sink format prio time s e in
      let m = carrying pb s.notify_builder payload system in
      let built = carried s.notify_builder payload system format facts.expects unmoved suits in
      let valid =
        built_valid pb doc system now prompt facts.setters facts.start s.notify_builder m
          facts.chained (inr (payload, known, built)) (notifies source sink) facts.made tt in
      rw (built, facts.transport) (accepted_send pb t now m w valid)
