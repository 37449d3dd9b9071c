-- ===== src/InputProfile/Places.antt =====
-- Where a profile stands in the list of src/domain/input_profile.rs, and how its lookups find it.
use mathlib.Core.Path.{subst}
use hidshift.InputProfile.Registry.{Distinct}
use hidshift.Prelude.{
  Bool, Bool-cases, List, [], any, any-append, ap, arith, change_first, false, find, get_elem?, inl,
  inr, refl, set, some, suc, sym, true, zero, ℕ, ◌++◌, ◌==◌, ◌∙◌, ◌∷◌, ◌≡◌,
}
use hidshift.InputProfile.{InputIdentity, InputProfile, InputProfileId, has_id, same_identity}
use hidshift.InputProfile.Keys.{or-false}

pub same_identity-eq : (a b : InputIdentity) → same_identity a b ≡ true → a ≡ b
unfolding same_identity
same_identity-eq a b h =
    let vendor : a.vendor_id ≡ b.vendor_id = ground (arith, h) in
    let product : a.product_id ≡ b.product_id = ground (arith, h) in
    let instance_hash : a.instance_hash ≡ b.instance_hash = ground (arith, h) in
    rw (vendor, product, instance_hash) refl

==_same : (n : ℕ) → (n == n) ≡ true
==_same n = ground arith

-- A profile of the list is none of those before it.
later-IsAbsent :
    (front ps : List InputProfile) (i : ℕ) {p : InputProfile}
    → Distinct front ps
    → get_elem? ps i ≡ some p
    → any (has_id p.id) front ≡ false
unfolding Distinct
later-IsAbsent front [] i d h = cc
later-IsAbsent front (x ∷ ps) zero {p = p} (absent, d) h =
    let same : x ≡ p = cc in ap (λ p. any (has_id p.id) front) (sym same) ∙ absent.id
later-IsAbsent front (x ∷ ps) (suc i) {p = p} (absent, d) h =
    let later = later-IsAbsent (front ++ (x ∷ [])) ps i {p = p} d h in
    (or-false (any (has_id p.id) front) (any (has_id p.id) (x ∷ []))
      (sym (any-append (has_id p.id) front (x ∷ [])) ∙ later)).0

first-IsAbsent :
    (front : List InputProfile) (x : InputProfile) (ps : List InputProfile) (i : ℕ)
    {p : InputProfile}
    → Distinct front (x ∷ ps)
    → get_elem? ps i ≡ some p
    → has_id p.id x ≡ false
unfolding Distinct
first-IsAbsent front x ps i {p = p} (absent, d) h =
    let later = later-IsAbsent (front ++ (x ∷ [])) ps i {p = p} d h in
    let (_, b) =
      or-false (any (has_id p.id) front) (any (has_id p.id) (x ∷ []))
        (sym (any-append (has_id p.id) front (x ∷ [])) ∙ later) in
    (or-false (has_id p.id x) false b).0

later-Distinct :
    (front : List InputProfile) (x : InputProfile) (ps : List InputProfile)
    → Distinct front (x ∷ ps)
    → Distinct (front ++ (x ∷ [])) ps
unfolding Distinct
later-Distinct front x ps (absent, d) = d

pub has_id-own : (p : InputProfile) (id : InputProfileId) → p.id ≡ id → has_id id p ≡ true
unfolding has_id
has_id-own p id e = ground (arith, e)

find-here :
    (test : InputProfile → Bool) (x : InputProfile) (ps : List InputProfile)
    → test x ≡ true
    → find test (x ∷ ps) ≡ some x
find-here test x ps e = rw e refl

find-there :
    (test : InputProfile → Bool) (x : InputProfile) (ps : List InputProfile)
    → test x ≡ false
    → find test (x ∷ ps) ≡ find test ps
find-there test x ps e = rw e refl

-- What was put in a place is found under its id.
pub find-set :
    (front ps : List InputProfile) (i : ℕ) (q : InputProfile) {p : InputProfile}
    → Distinct front ps
    → get_elem? ps i ≡ some p
    → q.id ≡ p.id
    → find (has_id q.id) (set ps i q) ≡ some q
find-set front [] i q d h same = cc
find-set front (x ∷ ps) zero q d h same = find-here (has_id q.id) q ps (has_id-own q q.id refl)
find-set front (x ∷ ps) (suc i) q {p = p} d h same =
    find-there (has_id q.id) x (set ps i q)
      (ap (λ id. has_id id x) same ∙ first-IsAbsent front x ps i {p = p} d h)
    ∙ find-set (front ++ (x ∷ [])) ps i q {p = p} (later-Distinct front x ps d) h same

pub find-append :
    (test : InputProfile → Bool) (ps : List InputProfile) (q : InputProfile)
    → any test ps ≡ false
    → test q ≡ true
    → find test (ps ++ (q ∷ [])) ≡ some q
find-append test [] q none_before e = find-here test q [] e
find-append test (x ∷ ps) q none_before e =
    let (a, b) = or-false (test x) (any test ps) none_before in
    find-there test x (ps ++ (q ∷ [])) a ∙ find-append test ps q b e

-- The place of the profile that is found.
pub find-place :
    (test : InputProfile → Bool) (ps : List InputProfile) {p : InputProfile}
    → find test ps ≡ some p
    → (i : ℕ) × (get_elem? ps i ≡ some p)
      × (test p ≡ true)
      × ((f : InputProfile → InputProfile) → change_first test f ps ≡ set ps i (f p))
find-place test [] h = cc
find-place test (x ∷ ps) {p = p} h = elim (Bool-cases (test x)) [
  | inl e ↦
      let here : some x ≡ some p = rw e at h in
      let same : x ≡ p = cc in
      subst
        (λ p.
          (i : ℕ) × (get_elem? (x ∷ ps) i ≡ some p)
          × (test p ≡ true)
          × ((f : InputProfile → InputProfile)
              → change_first test f (x ∷ ps) ≡ set (x ∷ ps) i (f p)))
        same (zero, refl, e, λ f. rw e refl)
  | inr e ↦
      let (i, at, passed_test, changed) = find-place test ps {p = p} (rw e at h) in
      (suc i, at, passed_test, λ f. rw e (ap (λ ps. x ∷ ps) (changed f)))
]
