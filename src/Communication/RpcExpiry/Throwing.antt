-- ===== src/Communication/RpcExpiry/Throwing.antt =====
-- std::call_once of src/communication/RpcClient.cpp around a callback that may throw: an exception
-- passes on to the caller, and leaves the flag as it was.
use up_cpp.Common.{
  ℕ, ◌≡◌, refl, ap, ◌∙◌, Bool, true, false, Option, none, some, [], ◌∷◌, ◌++◌, ◌&&◌, if◌then◌else◌,
  arith, ==_refl,
}
use up_cpp.Communication.RpcExpiry.{RpcRequest, RpcState, MessageOrStatus, call_flagged, call_once}

-- `raises` says which calls of which callback end in an exception.
module _ (raises : ℕ → MessageOrStatus → Bool) where
  abbrev pub call_flagged_raising :
      ℕ → MessageOrStatus → RpcState → Option RpcRequest → Bool × RpcState
  call_flagged_raising n answer s none = (false, s)
  call_flagged_raising n answer s (some r) =
      if r.called
      then (false, s)
      else if r.connected && raises n answer
      then (true, record s { delivered = s.delivered ++ (n, answer) ∷ [] })
      else (false, call_flagged n answer s (some r))

  -- Whether the call throws, and the state afterwards.
  unfoldable pub call_once_raising : ℕ → MessageOrStatus → RpcState → Bool × RpcState
  call_once_raising n answer s = call_flagged_raising n answer s (s.request n)

  flagged_quiet :
      (n : ℕ) (answer : MessageOrStatus) (s : RpcState) (o : Option RpcRequest)
      → raises n answer ≡ false
      → call_flagged_raising n answer s o ≡ (false, call_flagged n answer s o)
  flagged_quiet n answer s none quiet = refl
  flagged_quiet n answer s (some r) quiet = ground (arith, quiet)

  told : ℕ → MessageOrStatus → RpcState → RpcState
  told n answer s = record s { delivered = s.delivered ++ (n, answer) ∷ [] }

  raised :
      (n : ℕ) (answer : MessageOrStatus) (s : RpcState) (r : RpcRequest)
      → s.request n ≡ some r
      → r.called ≡ false
      → r.connected ≡ true
      → raises n answer ≡ true
      → call_once_raising n answer s ≡ (true, told n answer s)
  unfolding call_once_raising told call_once
  raised n answer s r found uncalled on bad = rw found (rw (uncalled, on, bad) refl)

  settled :
      (n : ℕ) (answer : MessageOrStatus) (s : RpcState) (r : RpcRequest)
      → s.request n ≡ some r
      → r.called ≡ false
      → r.connected ≡ true
      → ((call_once n answer s).delivered ≡ s.delivered ++ (n, answer) ∷ [])
        × ((call_once n answer s).request n ≡ some (record r { called = true }))
  unfolding call_once
  settled n answer s r found uncalled on = rw found (rw (uncalled, on) (refl, rw (==_refl n) refl))

  -- If a callback throws at one answer and returns at the next, it is called with both, and only
  -- the second sets its flag. So a callback can be called more than once.
  pub thrown_called_again :
      (n : ℕ) (first second : MessageOrStatus) (s : RpcState) (r : RpcRequest)
      → s.request n ≡ some r
      → r.called ≡ false
      → r.connected ≡ true
      → raises n first ≡ true
      → raises n second ≡ false
      → let (threw, s1) = call_once_raising n first s in
        let (threw', s2) = call_once_raising n second s1 in
        (threw ≡ true)
        × (threw' ≡ false)
        × (s2.delivered ≡ (s.delivered ++ (n, first) ∷ []) ++ (n, second) ∷ [])
        × (s2.request n ≡ some (record r { called = true }))
  unfolding call_once_raising told call_once
  thrown_called_again n first second s r found uncalled on bad good =
      let again = told n first s in
      let (all_told, set) = settled n second again r found uncalled on in
      let quiet = flagged_quiet n second again (s.request n) good in
      rw (raised n first s r found uncalled on bad) (
        refl,
        ap (λ p. p.0) quiet,
        ap (λ p. p.1.delivered) quiet ∙ all_told,
        ap (λ p. p.1.request n) quiet ∙ set,
      )
