-- ===== src/Builder/Message/Tests.antt =====
-- The message builder's theorems at concrete messages.
use up_cpp.Common.{◌≡◌, refl, inl, inr, none, some, false, [], ◌∷◌}
use up_cpp.Common.Int.{pos, ltb_ℤ}
use up_cpp.Common.Outcome.{ok}
use up_cpp.Proto.{UMessage, UMessageType, internal, default_attributes}
use up_cpp.Samples.{
  pb, doc, system, readings, prompt, topic, topic-IsTopic, method, method-IsMethod, payload,
}
use up_cpp.Validator.Uri.Forms.{forms_iff}
use up_cpp.Validator.Message.{is_valid}
use up_cpp.Validator.Message.Kinds.{IsOk}
use up_cpp.Builder.Uuid.{get_builder}
use up_cpp.Builder.Payload.{build_move}
use up_cpp.Builder.Message.{
  UMessageBuilder, publish_builder, new_builder, require_uri, with_priority, with_ttl, with_method,
  build, build_payload, fill, stamped,
}
use up_cpp.Builder.Message.Setters.{priority, ttl, apply, apply_all}
use up_cpp.Builder.Message.Chains.{make, publishes, built_valid}
use up_cpp.Builder.Message.Limits.{with_method_spoils_publish}

abbrev start : UMessageBuilder
start = record {
  attributes = record default_attributes { type = UMessageType.publish; source = some topic };
  expected_payload_format = none;
  uuid_builder = get_builder;
}

abbrev set : UMessageBuilder
set = record start { attributes = record start.attributes { priority = pos 3; ttl = some 1000 } }

abbrev built : UMessage
built = record { attributes = stamped set system; payload = none }

start_made : make pb (publishes topic) ≡ ok start
unfolding make publish_builder require_uri new_builder
start_made = rw ((forms_iff topic).3.1 topic-IsTopic) refl

set_chained : apply_all pb (priority (pos 3) ∷ ttl (pos 1000) ∷ []) start ≡ ok set
unfolding apply_all apply with_priority with_ttl ltb_ℤ
set_chained = refl

built_valid_example : IsOk (is_valid pb readings built)
unfolding build
built_valid_example =
    built_valid pb doc system readings prompt (priority (pos 3) ∷ ttl (pos 1000) ∷ []) start set
      built set_chained (inl refl) (publishes topic) start_made tt

abbrev expecting : UMessageBuilder
expecting = record start {
  attributes = record start.attributes { payload_format = pos 3 };
  expected_payload_format = some (pos 3);
}

abbrev carried : UMessage
carried = record {
  attributes = record (stamped expecting system) { payload_format = pos 3 };
  payload = some (1 ∷ 2 ∷ 3 ∷ []);
}

abbrev spoiled : UMessageBuilder
spoiled = record start { attributes = record start.attributes { sink = some method } }

spoiled_set : with_method pb start method ≡ ok spoiled
unfolding with_method
spoiled_set = rw ((forms_iff method).0.1 method-IsMethod) refl

-- A publication with a payload, from a builder with a later time to live.
abbrev spoiled_late : UMessageBuilder
spoiled_late = record spoiled { attributes = record spoiled.attributes { ttl = some 1000 } }

abbrev spoiled_message : UMessage
spoiled_message = record {
  attributes = record (stamped spoiled_late system) { payload_format = pos 3 };
  payload = some (1 ∷ 2 ∷ 3 ∷ []);
}

with_method_spoils_publish_example : (is_valid pb readings spoiled_message).0 ≡ false
unfolding build_payload build_move fill apply_all with_ttl ltb_ℤ apply
with_method_spoils_publish_example =
    with_method_spoils_publish pb readings start spoiled spoiled_late method (ttl (pos 1000) ∷ [])
      system spoiled_message doc refl spoiled_set refl (inr (inl (payload, refl)))

abbrev answering : UMessageBuilder
answering = record start { attributes = record start.attributes { type = UMessageType.response } }

abbrev failed : UMessageBuilder
failed = record answering {
  attributes = record answering.attributes { commstatus = some internal };
}
