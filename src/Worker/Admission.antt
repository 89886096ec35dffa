-- ===== src/Worker/Admission.antt =====
-- realtime_worker/admission.py, `SharedSessionAdmission`: one bound on sessions for all bindings. The
-- token that `uuid4` makes is an argument of `reserve`.
pub mod Bound
use realtime_voice_agent.Common.{
  ℕ, Bool, true, false, ◌||◌, Option, none, some, List, [], ◌∷◌, length, leb, filter, not, contains,
  if◌then◌else◌, Text, text_key, ◌==◌, ◌&&◌, Eq, ◌↔◌, ◌≡◌, eq_iff, arith,
}
use realtime_voice_agent.Common.Dict.{Dict, get, put, remove}

-- (tenant_id, device_id)
abbrev pub Principal : Type 0
Principal = Text × Text

abbrev pub principal_eq : Principal → Principal → Bool
principal_eq p q = (p.0 == q.0) && (p.1 == q.1)

pub principal_eq_iff : (p q : Principal) → (principal_eq p q ≡ true) ↔ (p ≡ q)
principal_eq_iff (a, b) (c, d) = ground (arith, eq_iff a c, eq_iff b d)

instance abbrev pub principal_key : Eq Principal
principal_key = record { test = principal_eq; test_iff = principal_eq_iff }

pub record Admission : Type 0 where
  pub max_sessions : ℕ
  pub reservations : Dict Text Principal
  pub principals : List Principal
  pub draining : Bool

unfoldable pub init : ℕ → Admission
init max_sessions = record {
  max_sessions = max_sessions;
  reservations = [];
  principals = [];
  draining = false;
}

-- `len(self._reservations)`
unfoldable pub active_count : Admission → ℕ
active_count a = length a.reservations

-- `self._principals.add(principal)`, on a set that does not hold it
unfoldable pub reserve : Principal → Text → Admission → Admission × Option Text
unfolding active_count
reserve principal token a =
    if a.draining || leb a.max_sessions (active_count a) || contains a.principals principal
    then (a, none)
    else (
      record a {
        reservations = put token principal a.reservations;
        principals = principal ∷ a.principals;
      },
      some token,
    )

-- `self._principals.discard(principal)`
unfoldable pub discard : Principal → List Principal → List Principal
discard p ps = filter (λ q. not (q == p)) ps

unfoldable pub release : Text → Admission → Admission
unfolding discard
release token a = elim (get token a.reservations) [
  | none ↦ record a { reservations = remove token a.reservations }
  | some principal ↦ record a {
    reservations = remove token a.reservations;
    principals = discard principal a.principals;
  }
]

unfoldable pub set_draining : Bool → Admission → Admission
set_draining value a = record a { draining = value }
