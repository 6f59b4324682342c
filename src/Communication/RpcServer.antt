-- ===== src/Communication/RpcServer.antt =====
-- src/communication/RpcServer.cpp. The user's callback is a function of the request; the number
-- `serves` stands for the server's own listener where the transport is told of it.
pub mod Replies
use up_cpp.Common.{
  ℕ, String, Bool, true, false, not, Option, none, some, List, [], ◌∷◌, if◌then◌else◌,
}
use up_cpp.Common.Int.{ℤ}
use up_cpp.Common.Outcome.{Outcome, ok, throw}
use up_cpp.Proto.{UUri, UMessage, UStatus, UCode, ok_code, invalid_argument, out_of_range, Protobuf}
use up_cpp.Exception.{Result, null_transport}
use up_cpp.Utils.Expected.{Expected, expected, unexpected}
use up_cpp.Validator.Uri
use up_cpp.Validator.Message.{Readings, is_valid_rpc_request}
use up_cpp.Builder.Uuid.{Entropy}
use up_cpp.Builder.Payload.{Payload}
use up_cpp.Builder.Message.{
  UMessageBuilder, response_to, with_ttl, with_payload_format, build, build_payload,
}
use up_cpp.Transport.World.{M, Call, invoked, return, raise, lift, log, ◌>>=◌, ◌>>◌}
use up_cpp.Transport.{UTransport, ListenHandle, register_listener, send, is_ok_code}
use up_cpp.Communication.Publisher.{require_transport, apply_if}

pub record RpcServer : Type 0 where
  pub transport : UTransport
  pub ttl : Option ℤ
  pub callback : UMessage → Option Payload
  pub expected_payload_format : Option ℤ
  pub callback_handle : Option ListenHandle

-- What the clock and the random source answer while one request is served, in their order: the
-- check of the request, the check of its ID for the response, the build, the check on sending.
pub record Serving : Type 0 where
  pub received : Readings
  pub answered : ℤ
  pub system : Entropy
  pub sending : Readings

-- The constructor.
unfoldable pub new_server :
    Option UTransport → (UMessage → Option Payload) → Option ℤ → Option ℤ → Result RpcServer
new_server none callback format ttl = throw (null_transport "transport cannot be null")
new_server (some t) callback format ttl = ok (record {
  transport = t;
  ttl = ttl;
  callback = callback;
  expected_payload_format = format;
  callback_handle = none;
})

-- The source filter that lets every sender through.
abbrev pub any_uri : UUri
any_uri = record {
  authority_name = b'*' ∷ [];
  ue_id = 0xffff_ffff;
  ue_version_major = 0xff;
  resource_id = 0xffff;
}

-- `build()` or `build(payload)`, by what the callback returned.
abbrev pub build_reply : UMessageBuilder → Option Payload → Entropy → Result UMessage
build_reply b none system = build b system
build_reply b (some payload) system = (build_payload b payload system).0

module _ (pb : Protobuf) where
  -- The listener that `connect` registers.
  unfoldable pub serve : RpcServer → Serving → UMessage → M (Unit {0})
  serve server env request =
      if not (is_valid_rpc_request pb env.received request).0 then return tt else do
        b ← lift (response_to pb request env.answered)
        log (invoked request)
        b' ← lift (apply_if (with_ttl pb) b server.ttl)
        b'' ← lift (apply_if (with_payload_format pb) b' server.expected_payload_format)
        response ← lift (build_reply b'' (server.callback request) env.system)
        ignored ← send pb server.transport env.sending response
        return tt

  -- The server afterwards, and the status.
  unfoldable pub connect : RpcServer → UUri → ℕ → M (RpcServer × UStatus)
  connect server method serves = do
    result ← register_listener server.transport (some serves) any_uri (some method)
    (elim result [
      | expected handle ↦
          return (
            record server { callback_handle = some handle },
            record { code = ok_code; message = "" },
          )
      | unexpected status ↦ return (server, status)
    ])

  abbrev pub refuse : UCode → String → M (Expected RpcServer UStatus)
  refuse code text = return (unexpected (record { code = code; message = text }))

  abbrev pub is_bad_format : Option ℤ → Bool
  is_bad_format none = false
  is_bad_format (some f) = not (pb.payload_format_is_valid f)

  -- `create`: the server if it connects, and a status otherwise.
  unfoldable pub create :
      Option UTransport
      → UUri
      → (UMessage → Option Payload)
      → Option ℤ
      → Option ℤ
      → ℕ
      → M (Expected RpcServer UStatus)
  unfolding connect new_server
  create transport method_name callback payload_format ttl serves = do
    t ← lift (require_transport transport)
    (if not (Uri.is_valid_rpc_method method_name).0
        then refuse invalid_argument "Invalid rpc URI"
        else if is_bad_format payload_format
        then refuse out_of_range "Invalid payload format"
        else do
          server ← lift (new_server (some t) callback payload_format ttl)
          (connected, status) ← connect server method_name serves
          (if is_ok_code status.code
              then return (expected connected)
              else return (unexpected status)))
