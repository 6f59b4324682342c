-- ===== src/Utils/CallbackConnection/Silence.antt =====
-- What CalleeHandle::reset of include/up-cpp/utils/CallbackConnection.h guarantees once it has
-- returned, and when it does not return.
use mathlib.Core.Path.{subst}
use up_cpp.Common.{
  ◌≡◌, refl, sym, ◌∙◌, ap, Bool, true, false, not, ◌&&◌, List, [], ◌∷◌, ◌++◌, all_of, arith,
}
use up_cpp.Utils.CallbackConnection.Calls.{
  Phase, entered, running, returned, Stage, connected, released, requested, found_alive, asleep,
  severed, Link, is_idle, expired, woken, Step, enter, lock, lock_fails, finish, raise, notify,
  leave, release, request, sever, look, sleep, Reach, here, next, established,
}

all_of-append :
    {A : Type 0} (p : A → Bool) (xs ys : List A) → all_of p (xs ++ ys) ≡ all_of p xs && all_of p ys
all_of-append p [] ys = refl
all_of-append p (x ∷ xs) ys = ground (arith, all_of-append p xs ys)

-- Whether the callback has expired, by its holder and its calls.
abbrev gone : Bool → List Phase → Bool
gone held calls = not held && all_of is_idle calls

expired_lem : (l : Link) → expired l ≡ gone l.held l.calls
unfolding expired
expired_lem l = refl

replaced :
    (held : Bool) (before after : List Phase) (x y : Phase)
    → gone held (before ++ x ∷ after) ≡ true
    → is_idle y ≡ true
    → (gone held (before ++ y ∷ after) ≡ true)
      × (gone held (before ++ after) ≡ true)
      × (is_idle x ≡ true)
replaced held before after x y h k = ground (
  arith,
  all_of-append is_idle before (x ∷ after),
  all_of-append is_idle before (y ∷ after),
  all_of-append is_idle before after,
  h,
  k,
)

-- Once the callback has expired, no step revives it or calls it.
step-expired :
    (l m : Link)
    → Step l m
    → gone l.held l.calls ≡ true
    → (gone m.held m.calls ≡ true) × (m.started ≡ l.started)
step-expired l m (enter _ open_) h = (h, refl)
step-expired l m (lock _ before after e alive) h = absurd (cc (sym (expired_lem l) ∙ alive, h))
step-expired l m (lock_fails _ before after e dead) h =
    ((replaced l.held before after entered returned (ap (gone l.held) (sym e) ∙ h) refl).0, refl)
step-expired l m (finish _ before after e) h =
    ((replaced l.held before after running returned (ap (gone l.held) (sym e) ∙ h) refl).0, refl)
step-expired l m (raise _ before after e) h =
    ((replaced l.held before after running returned (ap (gone l.held) (sym e) ∙ h) refl).1, refl)
step-expired l m (notify _ before after e dead) h =
    ((replaced l.held before after returned returned (ap (gone l.held) (sym e) ∙ h) refl).1, refl)
step-expired l m (leave _ before after e alive) h =
    ((replaced l.held before after returned returned (ap (gone l.held) (sym e) ∙ h) refl).1, refl)
step-expired l m (release _ e) h = (ground (arith, h), refl)
step-expired l m (request _ e) h = (h, refl)
step-expired l m (sever _ e dead) h = (h, refl)
step-expired l m (look _ e alive) h = (h, refl)
step-expired l m (sleep _ e) h = (h, refl)

-- What holds of every connection: the callee gives its pointer up before anything else, asks for
-- the end of the calls next, and is done only when the callback has expired.
abbrev Ordered : Stage → Bool → Bool → Bool → Type 0
Ordered connected held sever_requested dead = Unit
Ordered released held sever_requested dead = held ≡ false
Ordered severed held sever_requested dead = (sever_requested ≡ true) × (dead ≡ true)
Ordered _ held sever_requested dead = (held ≡ false) × (sever_requested ≡ true)

abbrev IsOrdered : Link → Type 0
IsOrdered l = Ordered l.stage l.held l.sever_requested (gone l.held l.calls)

-- A step that changes only the calls keeps the order, if an expired callback stays so.
calls-Ordered :
    (stage : Stage) (held asked dead dead' : Bool)
    → (dead ≡ true → dead' ≡ true)
    → Ordered stage held asked dead
    → Ordered stage held asked dead' × Ordered (woken stage) held asked dead'
calls-Ordered connected held asked dead dead' k h = (tt, tt)
calls-Ordered released held asked dead dead' k h = (h, h)
calls-Ordered requested held asked dead dead' k h = (h, h)
calls-Ordered found_alive held asked dead dead' k h = (h, h)
calls-Ordered asleep held asked dead dead' k h = (h, h)
calls-Ordered severed held asked dead dead' k h = ((h.0, k h.1), (h.0, k h.1))

step-IsOrdered : (l m : Link) → Step l m → IsOrdered l → IsOrdered m
step-IsOrdered l m (enter _ open_) h = h
step-IsOrdered l m (lock _ before after e alive) h =
    (calls-Ordered l.stage l.held l.sever_requested _ _
      (λ dead. (step-expired l m (lock l before after e alive) dead).0) h).0
step-IsOrdered l m (lock_fails _ before after e dead) h =
    (calls-Ordered l.stage l.held l.sever_requested _ _
      (λ dead'. (step-expired l m (lock_fails l before after e dead) dead').0) h).0
step-IsOrdered l m (finish _ before after e) h =
    (calls-Ordered l.stage l.held l.sever_requested _ _
      (λ dead. (step-expired l m (finish l before after e) dead).0) h).0
step-IsOrdered l m (raise _ before after e) h =
    (calls-Ordered l.stage l.held l.sever_requested _ _
      (λ dead. (step-expired l m (raise l before after e) dead).0) h).0
step-IsOrdered l m (notify _ before after e dead) h =
    (calls-Ordered l.stage l.held l.sever_requested _ _
      (λ dead'. (step-expired l m (notify l before after e dead) dead').0) h).1
step-IsOrdered l m (leave _ before after e alive) h =
    (calls-Ordered l.stage l.held l.sever_requested _ _
      (λ dead. (step-expired l m (leave l before after e alive) dead).0) h).0
step-IsOrdered l m (release _ e) h = refl
step-IsOrdered l m (request _ e) h =
    (subst (λ s. Ordered s l.held l.sever_requested (gone l.held l.calls)) e h, refl)
step-IsOrdered l m (sever _ e dead) h = (
  (subst (λ s. Ordered s l.held l.sever_requested (gone l.held l.calls)) e h).1,
  sym (expired_lem l) ∙ dead,
)
step-IsOrdered l m (look _ e alive) h =
    subst (λ s. Ordered s l.held l.sever_requested (gone l.held l.calls)) e h
step-IsOrdered l m (sleep _ e) h =
    subst (λ s. Ordered s l.held l.sever_requested (gone l.held l.calls)) e h

reach-IsOrdered : (l : Link) → Reach established l → IsOrdered l
reach-IsOrdered l here = tt
reach-IsOrdered l (next {k} run step) = step-IsOrdered k l step (reach-IsOrdered k run)

reach-expired :
    (l m : Link)
    → Reach l m
    → gone l.held l.calls ≡ true
    → (gone m.held m.calls ≡ true) × (m.started ≡ l.started)
reach-expired l m here h = (h, refl)
reach-expired l m (next {k} run step) h =
    let (dead, same) = reach-expired l k run h in
    let (dead', same') = step-expired k m step dead in (dead', same' ∙ same)

idle_calls :
    (held : Bool) (calls : List Phase) → gone held calls ≡ true → all_of is_idle calls ≡ true
idle_calls held calls h = ground (arith, h)

-- Once reset() has passed sever(), the connection has been asked to end, no call is in the
-- callback, and from then on none is ever in it or enters it.
pub severed_silences :
    (l m : Link)
    → Reach established l
    → l.stage ≡ severed
    → Reach l m
    → (l.sever_requested ≡ true) × (all_of is_idle m.calls ≡ true) × (m.started ≡ l.started)
severed_silences l m run done later =
    let (asked, dead) =
      subst (λ s. Ordered s l.held l.sever_requested (gone l.held l.calls)) done
        (reach-IsOrdered l run) in
    let (dead', same) = reach-expired l m later dead in
    (asked, idle_calls m.held m.calls dead', same)
