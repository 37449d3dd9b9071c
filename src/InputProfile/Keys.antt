-- ===== src/InputProfile/Keys.antt =====
-- How the changes of src/domain/input_profile.rs to its list leave ids and identities different.
use hidshift.InputProfile.Registry.{
  any_after, Distinct, Distinct-SameKeys, IsAbsent, SameKeys-append,
}
use hidshift.InputProfile.{
  InputProfileId, free_id_from, InputIdentity, InputProfile, has_id, has_identity, same_identity,
}
use hidshift.Prelude.{
  get_or, set, suc, zero, ◌+◌, arith, ℕ, ◌==◌, Bool, Bool-cases, List, [], any, any-append, ap,
  change_first, false, find, inl, inr, none, refl, some, sym, ◌++◌, ◌||◌, ◌∙◌, ◌∷◌, ◌≡◌,
}

pub find-none :
    (test : InputProfile → Bool) (ps : List InputProfile)
    → find test ps ≡ none
    → any test ps ≡ false
find-none test [] h = refl
find-none test (p ∷ ps) h = elim (Bool-cases (test p)) [
  | inl e ↦ let bad : some p ≡ none = rw e at h in cc
  | inr e ↦ rw e (find-none test ps (rw e at h))
]

pub or-false : (a b : Bool) → (a || b) ≡ false → (a ≡ false) × (b ≡ false)
or-false a b h = ground arith

==_comm : (m n : ℕ) → (m == n) ≡ (n == m)
==_comm m n = ground arith

same_identity_comm : (a b : InputIdentity) → same_identity a b ≡ same_identity b a
unfolding same_identity
same_identity_comm a b =
    rw
      (
        ==_comm a.vendor_id b.vendor_id,
        ==_comm a.product_id b.product_id,
        ==_comm a.instance_hash b.instance_hash,
      )
      refl

IsAbsent-first :
    (q p : InputProfile) (ps : List InputProfile)
    → IsAbsent q (p ∷ ps)
    → (has_id q.id p ≡ false) × (has_identity q.identity p ≡ false) × IsAbsent q ps
IsAbsent-first q p ps w =
    let (a, b) = or-false (has_id q.id p) (any (has_id q.id) ps) w.id in
    let (c, d) =
      or-false (has_identity q.identity p) (any (has_identity q.identity) ps) w.identity in
    (a, c, record { id = b; identity = d })

any-last :
    (test : InputProfile → Bool) (ps : List InputProfile) (p : InputProfile)
    → any test ps ≡ false
    → test p ≡ false
    → any test (ps ++ (p ∷ [])) ≡ false
any-last test ps p h k = any-append test ps (p ∷ []) ∙ rw (h, k) refl

IsAbsent-later :
    (q p : InputProfile) (front ps : List InputProfile)
    → IsAbsent q front
    → IsAbsent q (p ∷ ps)
    → IsAbsent q (front ++ (p ∷ []))
IsAbsent-later q p front ps f w =
    let (a, b, _) = IsAbsent-first q p ps w in
    record {
      id = any-last (has_id q.id) front p f.id a;
      identity = any-last (has_identity q.identity) front p f.identity b;
    }

pub Distinct-append :
    (front ps : List InputProfile) (q : InputProfile)
    → IsAbsent q front
    → IsAbsent q ps
    → Distinct front ps
    → Distinct front (ps ++ (q ∷ []))
unfolding Distinct
Distinct-append front [] q f w d = (f, tt)
Distinct-append front (p ∷ ps) q f w (absent, d) =
    let (_, _, rest) = IsAbsent-first q p ps w in
    (absent, Distinct-append (front ++ (p ∷ [])) ps q (IsAbsent-later q p front ps f w) rest d)

-- A change that keeps id and identity.
pub record KeepsKeys (f : InputProfile → InputProfile) : Type 0 where
  pub id : (p : InputProfile) → (f p).id ≡ p.id
  pub identity : (p : InputProfile) → (f p).identity ≡ p.identity

IsAbsent-same :
    (p q : InputProfile) (front : List InputProfile)
    → q.id ≡ p.id
    → q.identity ≡ p.identity
    → IsAbsent p front
    → IsAbsent q front
IsAbsent-same p q front i n w = record {
  id = ap (λ id. any (has_id id) front) i ∙ w.id;
  identity = ap (λ identity. any (has_identity identity) front) n ∙ w.identity;
}

pub Distinct-change_first :
    (test : InputProfile → Bool) (f : InputProfile → InputProfile) (front ps : List InputProfile)
    → KeepsKeys f
    → Distinct front ps
    → Distinct front (change_first test f ps)
unfolding Distinct
Distinct-change_first test f front [] keeps d = tt
Distinct-change_first test f front (p ∷ ps) keeps (absent, d) = elim (Bool-cases (test p)) [
  | inl e ↦ rw e (
    IsAbsent-same p (f p) front (keeps.id p) (keeps.identity p) absent,
    Distinct-SameKeys (front ++ (p ∷ [])) (front ++ (f p ∷ [])) ps
        (SameKeys-append front front p (f p)
          (record { ids = λ id. refl; identities = λ identity. refl }) (sym (keeps.id p))
          (sym (keeps.identity p)))
        d,
  )
  | inr e ↦ rw e (absent, Distinct-change_first test f (front ++ (p ∷ [])) ps keeps d)
]

-- The two lists have the same ids, and the second has no identities beyond the first but this one.
record Replaces (n : InputIdentity) (xs ys : List InputProfile) : Type 0 where
  ids : (id : InputProfileId) → any (has_id id) xs ≡ any (has_id id) ys
  identities :
      (identity : InputIdentity)
      → same_identity n identity ≡ false
      → any (has_identity identity) xs ≡ false
      → any (has_identity identity) ys ≡ false

Replaces-append :
    (n : InputIdentity) (xs ys : List InputProfile) (p : InputProfile)
    → Replaces n xs ys
    → Replaces n (xs ++ (p ∷ [])) (ys ++ (p ∷ []))
Replaces-append n xs ys p w = record {
  ids = λ id. any_after (has_id id) xs ys p p (w.ids id) refl;
  identities = λ identity other none_before.
      let (a, b) =
        or-false (any (has_identity identity) xs) (has_identity identity p || false)
          (sym (any-append (has_identity identity) xs (p ∷ [])) ∙ none_before) in
      any-append (has_identity identity) ys (p ∷ []) ∙ rw (w.identities identity other a, b) refl;
}

differs :
    (p : InputProfile) (n : InputIdentity)
    → has_identity n p ≡ false
    → same_identity n p.identity ≡ false
unfolding has_identity
differs p n h = same_identity_comm n p.identity ∙ h

Distinct-Replaces :
    (n : InputIdentity) (xs ys ps : List InputProfile)
    → Replaces n xs ys
    → any (has_identity n) ps ≡ false
    → Distinct xs ps
    → Distinct ys ps
unfolding Distinct
Distinct-Replaces n xs ys [] w new d = tt
Distinct-Replaces n xs ys (p ∷ ps) w new (absent, d) =
    let (a, b) = or-false (has_identity n p) (any (has_identity n) ps) new in
    (
      record {
        id = sym (w.ids p.id) ∙ absent.id;
        identity = w.identities p.identity (differs p n a) absent.identity;
      },
      Distinct-Replaces n (xs ++ (p ∷ [])) (ys ++ (p ∷ [])) ps (Replaces-append n xs ys p w) b d,
    )

Replaces-new :
    (front : List InputProfile) (p q : InputProfile)
    → q.id ≡ p.id
    → Replaces q.identity (front ++ (p ∷ [])) (front ++ (q ∷ []))
unfolding has_id has_identity
Replaces-new front p q i = record {
  ids = λ id. any_after (has_id id) front front p q refl (ap (λ x. x == id) (sym i));
  identities = λ identity other none_before.
      let (a, b) =
        or-false (any (has_identity identity) front) (has_identity identity p || false)
          (sym (any-append (has_identity identity) front (p ∷ [])) ∙ none_before) in
      any-last (has_identity identity) front q a other;
}

-- Another device in a place, under the id that was there.
pub Distinct-set :
    (front ps : List InputProfile) (i : ℕ) (q d : InputProfile)
    → q.id ≡ (get_or ps i d).id
    → any (has_identity q.identity) front ≡ false
    → any (has_identity q.identity) ps ≡ false
    → Distinct front ps
    → Distinct front (set ps i q)
unfolding Distinct
Distinct-set front [] i q d same f new w = tt
Distinct-set front (p ∷ ps) zero q d same f new (absent, w) =
    let (a, b) = or-false (has_identity q.identity p) (any (has_identity q.identity) ps) new in
    (
      record { id = ap (λ id. any (has_id id) front) same ∙ absent.id; identity = f },
      Distinct-Replaces q.identity (front ++ (p ∷ [])) (front ++ (q ∷ [])) ps
          (Replaces-new front p q same) b w,
    )
Distinct-set front (p ∷ ps) (suc i) q d same f new (absent, w) =
    let (a, b) = or-false (has_identity q.identity p) (any (has_identity q.identity) ps) new in
    (
      absent,
      Distinct-set (front ++ (p ∷ [])) ps i q d same
          (any-last (has_identity q.identity) front p f a) b w,
    )

-- A new id is one that no profile has.
pub free_id_from-new :
    (ps : List InputProfile) (count candidate : ℕ) {id : InputProfileId}
    → free_id_from ps count candidate ≡ some id
    → any (has_id id) ps ≡ false
unfolding free_id_from
free_id_from-new ps zero candidate h = cc
free_id_from-new ps (suc count) candidate {id = id} h =
    elim (Bool-cases (any (has_id candidate) ps)) [
      | inl taken ↦ free_id_from-new ps count (candidate + 1) (rw taken at h)
      | inr free ↦
          let here : some candidate ≡ some id = rw free at h in
          let same : candidate ≡ id = cc in ap (λ id. any (has_id id) ps) (sym same) ∙ free
    ]
