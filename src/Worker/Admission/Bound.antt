-- ===== src/Worker/Admission/Bound.antt =====
-- On the bound of the admission and the principals that hold its slots.
use realtime_voice_agent.Common.{
  ℕ, ◌≤◌, ◌≡◌, ◌≢◌, refl, subst, Bool, true, false, inl, inr, none, some, List, [], ◌∷◌, length,
  arith, Text, text_key, eq_iff, eq_refl, contains, Option-cases, Bool-cases, nat_key, leb, ◌||◌,
}
use realtime_voice_agent.Common.Dict.{
  get, put, get-put, get-remove, length-put-le, length-remove-le, remove-put_new,
}
use realtime_voice_agent.Worker.Admission.{
  Principal, principal_key, Admission, init, active_count, reserve, release, discard, set_draining,
}

contains-discard :
    (p q : Principal) (ps : List Principal)
    → contains ps q ≡ true
    → p ≢ q
    → contains (discard p ps) q ≡ true
unfolding discard
contains-discard p q [] h n = absurd (cc)
contains-discard p q (x ∷ ps) h n = ground (arith, contains-discard p q ps, eq_iff x q, eq_iff x p)

discard_absent : (p : Principal) (ps : List Principal) → contains ps p ≡ false → discard p ps ≡ ps
unfolding discard
discard_absent p [] h = refl
discard_absent p (x ∷ ps) h = ground (arith, discard_absent p ps)

-- Within the bound, and each principal that holds a reservation is in the set, with one token only.
pub record IsAdmitted (a : Admission) : Type 0 where
  pub within : active_count a ≤ a.max_sessions
  pub listed :
      (t : Text) (p : Principal) → get t a.reservations ≡ some p → contains a.principals p ≡ true
  pub single :
      (t u : Text) (p : Principal)
      → get t a.reservations ≡ some p
      → get u a.reservations ≡ some p
      → t ≡ u

init-IsAdmitted : (n : ℕ) → IsAdmitted (init n)
unfolding init active_count get
init-IsAdmitted n = record {
  within = omega arith;
  listed = λ t p h. absurd (cc);
  single = λ t u p h k. absurd (cc);
}

reserve-IsAdmitted :
    (p : Principal) (token : Text) (a : Admission) → IsAdmitted a → IsAdmitted (reserve p token a).0
unfolding reserve active_count
reserve-IsAdmitted p token a v =
    elim (Bool-cases
      (a.draining || leb a.max_sessions (length a.reservations) || contains a.principals p)) [
        | inl e ↦ rw e v
        | inr e ↦ rw e (record {
          within = ground (arith, length-put-le token p a.reservations);
          listed = λ t q h.
              ground
                (arith, v.listed t q, eq_iff p q, eq_iff token t, get-put token t p a.reservations);
          single = λ t u q h k. ground (
            arith,
            v.single t u q,
            v.listed t q,
            v.listed u q,
            eq_iff token t,
            eq_iff token u,
            get-put token t p a.reservations,
            get-put token u p a.reservations,
          );
        })
      ]

release-IsAdmitted : (token : Text) (a : Admission) → IsAdmitted a → IsAdmitted (release token a)
unfolding release active_count
release-IsAdmitted token a v = elim (Option-cases (get token a.reservations)) [
  | inl e ↦
      rw (e, release)
        (record {
          within = ground (arith, v.within, length-remove-le token a.reservations);
          listed = λ t q h. ground (arith, v.listed t q, get-remove token t a.reservations);
          single = λ t u q h k. ground (
            arith,
            v.single t u q,
            get-remove token t a.reservations,
            get-remove token u a.reservations,
          );
        })
  | inr (p, e) ↦
      rw (e, release)
        (record {
          within = ground (arith, v.within, length-remove-le token a.reservations);
          listed = λ t q h.
              contains-discard p q a.principals
                (ground (arith, v.listed t q, get-remove token t a.reservations))
                (λ same.
                  ground
                    (arith, v.single t token q, eq_iff token t, get-remove token t a.reservations));
          single = λ t u q h k. ground (
            arith,
            v.single t u q,
            get-remove token t a.reservations,
            get-remove token u a.reservations,
          );
        })
]

pub data Call : Type 0 where
  reserves : Principal → Text → Call
  releases : Text → Call
  drains : Bool → Call

unfoldable pub step : Call → Admission → Admission
step (reserves p token) a = (reserve p token a).0
step (releases token) a = release token a
step (drains value) a = set_draining value a

unfoldable pub run : List Call → Admission → Admission
run [] a = a
run (c ∷ cs) a = run cs (step c a)

step-IsAdmitted : (c : Call) (a : Admission) → IsAdmitted a → IsAdmitted (step c a)
unfolding step
step-IsAdmitted (reserves p token) a v = reserve-IsAdmitted p token a v
step-IsAdmitted (releases token) a v = release-IsAdmitted token a v
step-IsAdmitted (drains value) a v =
    unfold set_draining active_count in
    record { within = unfold active_count in v.within; listed = v.listed; single = v.single }

run-IsAdmitted : (cs : List Call) (a : Admission) → IsAdmitted a → IsAdmitted (run cs a)
unfolding run
run-IsAdmitted [] a v = v
run-IsAdmitted (c ∷ cs) a v = run-IsAdmitted cs (step c a) (step-IsAdmitted c a v)

-- Whatever calls a new admission gets, it holds at most `max_sessions` reservations, and no principal
-- holds two of them.
pub admission_bounded : (n : ℕ) (cs : List Call) → IsAdmitted (run cs (init n))
admission_bounded n cs = run-IsAdmitted cs (init n) (init-IsAdmitted n)

reserved_release :
    (p : Principal) (token : Text) (a : Admission)
    → get token a.reservations ≡ none
    → contains a.principals p ≡ false
    → release token
        (record a { reservations = put token p a.reservations; principals = p ∷ a.principals })
      ≡ a
unfolding release discard
reserved_release p token a fresh absent = ground (
  arith,
  eq_refl token,
  eq_refl p,
  get-put token token p a.reservations,
  remove-put_new token p a.reservations fresh,
  discard_absent p a.principals absent,
)

-- A reservation under a new token that is released again leaves the admission exactly as it was.
pub release-reserve :
    (p : Principal) (token : Text) (a a' : Admission)
    → get token a.reservations ≡ none
    → reserve p token a ≡ (a', some token)
    → release token a' ≡ a
unfolding reserve
release-reserve p token a a' fresh h =
    subst (λ x. release token x ≡ a) (ground arith)
      (reserved_release p token a fresh (ground arith))
