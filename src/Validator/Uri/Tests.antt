-- ===== src/Validator/Uri/Tests.antt =====
-- The URI theorems at concrete URIs.
use up_cpp.Samples.{topic, topic-IsTopic}
use up_cpp.Validator.Uri.{is_valid_publish_topic}
use up_cpp.Validator.Uri.Forms.{IsOk, forms_iff}

forms_iff_example : IsOk (is_valid_publish_topic topic)
forms_iff_example = (forms_iff topic).3.1 topic-IsTopic
