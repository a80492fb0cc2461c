-- ===== src/Iris/Monad.antt =====
-- Code that reads and changes a session and may throw: what was changed before a throw stays.
pub mod Rules
use qualcomm_iris_vaapi.Base.{Bool, true, false, if◌then◌else◌}
use qualcomm_iris_vaapi.Iris.Types.{Status, is_error, Session}

pub data Result {ℓ} (A : Type ℓ) : Type ℓ where
  ok : A → Result A
  err : Status → Result A

abbrev pub M : Type 0 → Type 0
M A = Session → Result A × Session

unfoldable pub pure : {A : Type 0} → A → M A
pure a s = (ok a, s)

unfoldable pub throw : {A : Type 0} → Status → M A
throw e s = (err e, s)

abbrev pub bind_result : {A B : Type 0} → Result A → Session → (A → M B) → Result B × Session
bind_result (ok a) s f = f a s
bind_result (err e) s f = (err e, s)

infixl 5 ◌>>=◌ ◌>>◌
unfoldable pub ◌>>=◌ : {A B : Type 0} → M A → (A → M B) → M B
◌>>=◌ m f s = bind_result (m s).0 (m s).1 f

unfoldable pub ◌>>◌ : {B : Type 0} → M (Unit {0}) → M B → M B
◌>>◌ m k s = bind_result (m s).0 (m s).1 (λ _. k)

-- src/util/error.h, `require`.
unfoldable pub require : Bool → Status → M (Unit {0})
require true e s = (ok tt, s)
require false e s = (err e, s)

unfoldable pub get : M Session
get s = (ok s, s)

unfoldable pub modify : (Session → Session) → M (Unit {0})
modify f s = (ok tt, f s)

abbrev pub handle_result : {A : Type 0} → Result A → Session → (Status → M A) → Result A × Session
handle_result (ok a) s h = (ok a, s)
handle_result (err e) s h = if is_error e then h e s else (err e, s)

abbrev pub handle_any : {A : Type 0} → Result A → Session → (Status → M A) → Result A × Session
handle_any (ok a) s h = (ok a, s)
handle_any (err e) s h = h e s

-- `try { m } catch (const Error& e) { h(e) }`
unfoldable pub catch : {A : Type 0} → M A → (Status → M A) → M A
catch m h s = handle_result (m s).0 (m s).1 h

-- `try { m } catch (...) { h(e) }`
unfoldable pub catch_all : {A : Type 0} → M A → (Status → M A) → M A
catch_all m h s = handle_any (m s).0 (m s).1 h

unfoldable pub choose : {A : Type 0} → Bool → M A → M A → M A
choose true m k = m
choose false m k = k

unfoldable pub when : Bool → M (Unit {0}) → M (Unit {0})
unfolding pure
when true m = m
when false m = pure tt
