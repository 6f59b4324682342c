-- ===== src/Validator/Message/Tests.antt =====
-- The message theorems at concrete messages.
use up_cpp.Common.{refl, arith}
use up_cpp.Common.Int.{ltb_ℤ}
use up_cpp.Samples.{
  pb, doc, readings, publication, request_message, topic, id, id-IsUuid, topic-IsTopic,
  method-IsMethod, client-IsEntity, method, client, response_message,
}
use up_cpp.Validator.Message.{is_valid_publish, is_valid_rpc_response_for}
use up_cpp.Validator.Message.Kinds.{IsOk, ValidPublish, ValidResponse, kinds_iff}
use up_cpp.Validator.Message.Responses.{response_for_iff}

publication-ValidPublish : ValidPublish pb readings publication.attributes
unfolding ltb_ℤ
publication-ValidPublish = record {
  common = record { id = id-IsUuid; fresh = tt; priority = refl; format = refl };
  type = refl;
  source = (topic, refl, topic-IsTopic);
  sink = refl;
  commstatus = refl;
  reqid = refl;
  permission_level = refl;
  token = refl;
}

kinds_iff_example : IsOk (is_valid_publish pb readings publication)
kinds_iff_example = (kinds_iff pb readings publication).2.1 publication-ValidPublish

response-ValidResponse : ValidResponse pb readings response_message.attributes
unfolding ltb_ℤ
response-ValidResponse = record {
  common = record { id = id-IsUuid; fresh = tt; priority = refl; format = refl };
  type = refl;
  source = (method, refl, method-IsMethod);
  sink = (client, refl, client-IsEntity);
  priority = omega arith;
  reqid = (id, refl, id-IsUuid, tt);
  permission_level = refl;
  token = refl;
}

response_for_iff_example :
    IsOk (is_valid_rpc_response_for pb readings request_message response_message)
response_for_iff_example =
    (response_for_iff pb readings doc request_message response_message).1
      (response-ValidResponse, refl, refl, refl, refl)
