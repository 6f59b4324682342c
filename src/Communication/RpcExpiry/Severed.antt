-- ===== src/Communication/RpcExpiry/Severed.antt =====
-- The handle that src/communication/RpcClient.cpp returns, over all orders of the threads' steps.
use up_cpp.Common.{ℕ, ◌≡◌, false, some}
use up_cpp.Communication.RpcExpiry.{RpcRequest, RpcState}
use up_cpp.Communication.RpcExpiry.Once.{times}

-- The request exists, its callee has disconnected, and its callback was called `t` times.
abbrev pub Severed : ℕ → ℕ → RpcState → Type 0
Severed m t s =
    ((r : RpcRequest) × (s.request m ≡ some r) × (r.connected ≡ false)) × (times m s.delivered ≡ t)
