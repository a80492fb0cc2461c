-- ===== src/Iris/Monad/Rules.antt =====
-- Conditions on the session through code that may throw: `P` before it and where it returns, `Q` where
-- it throws.
use qualcomm_iris_vaapi.Base.{Bool, Bool-cases, inl, inr, true, false}
use qualcomm_iris_vaapi.Iris.Types.{Status, is_error, Session}
use qualcomm_iris_vaapi.Iris.Monad.{
  Result, ok, err, M, pure, bind_result, ◌>>=◌, ◌>>◌, get, modify, handle_result, handle_any, catch,
  catch_all, choose, when,
}

abbrev pub Post :
    {A : Type 0} → (Session → Type 0) → (Session → Type 0) → Result A → Session → Type 0
Post P Q (ok a) s = P s
Post P Q (err e) s = Q s

pub record Keeps (P Q : Session → Type 0) {A : Type 0} (m : M A) : Type 0 where
  pub run : (s : Session) → P s → Post P Q (m s).0 (m s).1

handle_keeps :
    (P Q R : Session → Type 0) {A : Type 0} (r : Result A) (s : Session) (f : Status → M A)
    → Post P R r s
    → ((s : Session) → R s → Q s)
    → ((e : Status) (s : Session) → R s → Post P Q (f e s).0 (f e s).1)
    → Post P Q (handle_result r s f).0 (handle_result r s f).1
handle_keeps P Q R (ok a) s f h escapes k = h
handle_keeps P Q R (err e) s f h escapes k = elim (Bool-cases (is_error e)) [
  | inl caught ↦ rw caught (k e s h)
  | inr other ↦ rw other (escapes s h)
]

any_keeps :
    (P Q R : Session → Type 0) {A : Type 0} (r : Result A) (s : Session) (f : Status → M A)
    → Post P R r s
    → ((e : Status) (s : Session) → R s → Post P Q (f e s).0 (f e s).1)
    → Post P Q (handle_any r s f).0 (handle_any r s f).1
any_keeps P Q R (ok a) s f h k = h
any_keeps P Q R (err e) s f h k = k e s h

module _ {P Q : Session → Type 0} where
  pub Keeps-pure : {A : Type 0} (a : A) → Keeps P Q (pure a)
  unfolding pure
  Keeps-pure a = record { run = λ s h. h }

  bind_keeps :
      {A B : Type 0} (r : Result A) (s : Session) (f : A → M B)
      → Post P Q r s
      → ((a : A) → Keeps P Q (f a))
      → Post P Q (bind_result r s f).0 (bind_result r s f).1
  bind_keeps (ok a) s f h k = (k a).run s h
  bind_keeps (err e) s f h k = h

  pub Keeps-bind :
      {A B : Type 0} {m : M A} {f : A → M B}
      → Keeps P Q m
      → ((a : A) → Keeps P Q (f a))
      → Keeps P Q (m >>= f)
  unfolding ◌>>=◌
  Keeps-bind {m} {f} km kf = record { run = λ s h. bind_keeps (m s).0 (m s).1 f (km.run s h) kf }

  pub Keeps-then :
      {B : Type 0} {m : M (Unit {0})} {k : M B} → Keeps P Q m → Keeps P Q k → Keeps P Q (m >> k)
  unfolding ◌>>◌
  Keeps-then {m} {k} km kk = record {
    run = λ s h. bind_keeps (m s).0 (m s).1 (λ _. k) (km.run s h) (λ _. kk);
  }

  pub Keeps-get : Keeps P Q get
  unfolding get
  Keeps-get = record { run = λ s h. h }

  -- The continuation may use that what it was given is the session.
  pub Keeps-read :
      {B : Type 0} (f : Session → M B)
      → ((s : Session) → P s → Post P Q (f s s).0 (f s s).1)
      → Keeps P Q (get >>= f)
  unfolding ◌>>=◌ get
  Keeps-read f k = record { run = k }

  pub Keeps-modify :
      (f : Session → Session) → ((s : Session) → P s → P (f s)) → Keeps P Q (modify f)
  unfolding modify
  Keeps-modify f k = record { run = k }

  pub Keeps-catch :
      {A : Type 0} {R : Session → Type 0} {m : M A} (f : Status → M A)
      → Keeps P R m
      → ((s : Session) → R s → Q s)
      → ((e : Status) (s : Session) → R s → Post P Q (f e s).0 (f e s).1)
      → Keeps P Q (catch m f)
  unfolding catch
  Keeps-catch {R} {m} f km escapes kf = record {
    run = λ s h. handle_keeps P Q R (m s).0 (m s).1 f (km.run s h) escapes kf;
  }

  pub Keeps-catch_all :
      {A : Type 0} {R : Session → Type 0} {m : M A} (f : Status → M A)
      → Keeps P R m
      → ((e : Status) (s : Session) → R s → Post P Q (f e s).0 (f e s).1)
      → Keeps P Q (catch_all m f)
  unfolding catch_all
  Keeps-catch_all {R} {m} f km kf = record {
    run = λ s h. any_keeps P Q R (m s).0 (m s).1 f (km.run s h) kf;
  }

  pub Keeps-choose :
      {A : Type 0} (b : Bool) {m k : M A} → Keeps P Q m → Keeps P Q k → Keeps P Q (choose b m k)
  unfolding choose
  Keeps-choose true km kk = km
  Keeps-choose false km kk = kk

  pub Keeps-when : (b : Bool) {m : M (Unit {0})} → Keeps P Q m → Keeps P Q (when b m)
  unfolding when
  Keeps-when true km = km
  Keeps-when false km = Keeps-pure tt

-- A choice at one session, which the two ways may know.
pub post_choose :
    (P Q : Session → Type 0) {A : Type 0} (b : Bool) (m k : M A) (s : Session)
    → Post P Q (m s).0 (m s).1
    → Post P Q (k s).0 (k s).1
    → Post P Q (choose b m k s).0 (choose b m k s).1
unfolding choose
post_choose P Q true m k s hm hk = hm
post_choose P Q false m k s hm hk = hk

pub ruleset keeps = (Keeps-pure, Keeps-bind, Keeps-then, Keeps-get, Keeps-choose, Keeps-when)
