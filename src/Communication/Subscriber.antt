-- ===== src/Communication/Subscriber.antt =====
-- src/communication/Subscriber.cpp.
use up_cpp.Common.{ℕ, Option, none, some}
use up_cpp.Common.Outcome.{ok, throw}
use up_cpp.Proto.{UUri, UStatus}
use up_cpp.Exception.{Result, null_transport}
use up_cpp.Utils.Expected.{Expected, expected, unexpected}
use up_cpp.Validator.Uri
use up_cpp.Builder.Message.{require_uri}
use up_cpp.Transport.World.{M, return, lift, ◌>>=◌, ◌>>◌}
use up_cpp.Transport.{UTransport, ListenHandle, register_listener}
use up_cpp.Communication.Publisher.{require_transport}

pub record Subscriber : Type 0 where
  pub transport : UTransport
  pub subscription : ListenHandle

-- `if (!handle) return Unexpected(handle.error()); return make_unique<T>(transport, handle);`
abbrev pub wrap_handle :
    {A : Type 0} → (ListenHandle → A) → Expected ListenHandle UStatus → M (Expected A UStatus)
wrap_handle make (expected handle) = return (expected (make handle))
wrap_handle make (unexpected status) = return (unexpected status)

unfoldable pub new_subscriber : Option UTransport → ListenHandle → Result Subscriber
new_subscriber none subscription = throw (null_transport "transport cannot be null")
new_subscriber (some t) subscription = ok (record { transport = t; subscription = subscription })

unfoldable pub subscribe : Option UTransport → UUri → Option ℕ → M (Expected Subscriber UStatus)
subscribe transport topic callback = do
  t ← lift (require_transport transport)
  lift (
      require_uri "Topic URI is not a valid topic subscription pattern |  "
        (Uri.is_valid_subscription topic) tt)
  handle ← register_listener t callback topic none
  wrap_handle (λ h. record { transport = t; subscription = h }) handle
