-- ===== src/InputProfile/Registry.antt =====
-- The ids and the identities in the registry of src/domain/input_profile.rs.
use hidshift.InputProfile.{
  InputIdentity, InputProfile, InputProfileId, InputProfileRegistry, duplicate_identity,
  duplicate_profile_id, has_id, has_identity, input_profile_capacity, next_u64,
  registry_full_with_connected_profiles, restore, same_identity,
}
use hidshift.Prelude.{
  Bool, List, [], any, any-append, ap, arith, false, length, max, ok, passes, refl, sym, ◌++◌, ◌<◌,
  ◌==◌, ◌∙◌, ◌∷◌, ◌≡◌,
}

-- No profile of the list has the id or the identity of this one.
pub record IsAbsent (p : InputProfile) (profiles : List InputProfile) : Type 0 where
  pub id : any (has_id p.id) profiles ≡ false
  pub identity : any (has_identity p.identity) profiles ≡ false

-- Each profile differs from those before it, the first ones included.
unfoldable pub Distinct : List InputProfile → List InputProfile → Type 0
Distinct front [] = Unit
Distinct front (p ∷ profiles) = IsAbsent p front × Distinct (front ++ (p ∷ [])) profiles

-- The lists have the same ids and identities.
pub record SameKeys (xs ys : List InputProfile) : Type 0 where
  pub ids : (id : InputProfileId) → any (has_id id) xs ≡ any (has_id id) ys
  pub identities :
      (identity : InputIdentity) → any (has_identity identity) xs ≡ any (has_identity identity) ys

pub any_after :
    (test : InputProfile → Bool) (xs ys : List InputProfile) (p q : InputProfile)
    → any test xs ≡ any test ys
    → test p ≡ test q
    → any test (xs ++ (p ∷ [])) ≡ any test (ys ++ (q ∷ []))
any_after test xs ys p q h k =
    any-append test xs (p ∷ []) ∙ rw (h, k) (sym (any-append test ys (q ∷ [])))

pub SameKeys-append :
    (xs ys : List InputProfile) (p q : InputProfile)
    → SameKeys xs ys
    → p.id ≡ q.id
    → p.identity ≡ q.identity
    → SameKeys (xs ++ (p ∷ [])) (ys ++ (q ∷ []))
unfolding has_id has_identity
SameKeys-append xs ys p q same i n = record {
  ids = λ id. any_after (has_id id) xs ys p q (same.ids id) (ap (λ x. x == id) i);
  identities = λ identity.
      any_after (has_identity identity) xs ys p q (same.identities identity)
        (ap (λ x. same_identity x identity) n);
}

pub Distinct-SameKeys :
    (xs ys profiles : List InputProfile)
    → SameKeys xs ys
    → Distinct xs profiles
    → Distinct ys profiles
unfolding Distinct
Distinct-SameKeys xs ys [] same d = tt
Distinct-SameKeys xs ys (p ∷ profiles) same (absent, d) = (
  record {
    id = sym (same.ids p.id) ∙ absent.id;
    identity = sym (same.identities p.identity) ∙ absent.identity;
  },
  Distinct-SameKeys (xs ++ (p ∷ [])) (ys ++ (p ∷ [])) profiles
      (SameKeys-append xs ys p p same refl refl) d,
)

abbrev pub pushed : InputProfileRegistry → InputProfile → InputProfileRegistry
pushed r p = record {
  profiles = r.profiles ++ (p ∷ []);
  next_sequence = max r.next_sequence (next_u64 p.last_seen);
}

pub restore-ok :
    (r : InputProfileRegistry) (p : InputProfile)
    → IsAbsent p r.profiles
    → length r.profiles < input_profile_capacity
    → restore r p ≡ ok (pushed r p)
unfolding restore
restore-ok r p absent room =
    passes _ duplicate_profile_id _ absent.id
    ∙ passes _ duplicate_identity _ absent.identity
    ∙ passes _ registry_full_with_connected_profiles _ (ground (arith, room))
