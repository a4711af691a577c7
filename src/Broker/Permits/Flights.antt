-- ===== src/Broker/Permits/Flights.antt =====
-- One mutation for a subject at a time, and 32 in all.
use tersa_app.Prelude.{
  ◌≤◌, ◌≡◌, refl, Bool, true, false, not, ◌&&◌, List, [], ◌∷◌, any, keep, length, arith,
}
use tersa_app.Prelude.Result.{ok, err}
use tersa_app.Prelude.Text.{Text, text_eq, text_eq_refl}
use tersa_app.Broker.{busy}
use tersa_app.Broker.Permits.{SubjectPermits, is_held, claim_permit, drop_permit}

-- no subject twice
unfoldable pub distinct_subjects : List Text → Bool
distinct_subjects [] = true
distinct_subjects (t ∷ ts) = not (any (λ u. text_eq u t) ts) && distinct_subjects ts

keep-unheld :
    (subject : Text) (ts : List Text)
    → any (λ t. text_eq t subject) ts ≡ false
    → keep (λ t. not (text_eq t subject)) ts ≡ ts
keep-unheld subject [] h = refl
keep-unheld subject (t ∷ ts) h = ground (arith, keep-unheld subject ts)

-- Over at most 32 distinct held subjects, a permit that is granted was free, keeps the held subjects
-- at most 32 and distinct, refuses a second permit of its subject, and gives back exactly the state
-- before when it drops.
pub claim_permit_lem :
    (subject : Text) (p : SubjectPermits)
    → length p.held ≤ 32
    → distinct_subjects p.held ≡ true
    → (claim_permit subject p).0 ≡ ok tt
    → let q = (claim_permit subject p).1 in
      (is_held subject p ≡ false)
      × (length q.held ≤ 32)
      × (distinct_subjects q.held ≡ true)
      × (claim_permit subject q ≡ (err busy, q))
      × (drop_permit subject q ≡ p)
unfolding claim_permit is_held drop_permit distinct_subjects
claim_permit_lem subject p l d h = ground (arith, text_eq_refl subject, keep-unheld subject p.held)
