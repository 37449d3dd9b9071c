-- ===== src/InputProfile/Free.antt =====
-- The place that src/domain/input_profile.rs gives to a new device: the one of a device that is not
-- connected, or an id that is free.
use mathlib.Core.Path.{subst}
use hidshift.InputProfile.{
  InputProfile, InputProfileId, free_id_from, has_id, input_profile_capacity, older, oldest_from,
}
use hidshift.Prelude.{
  Bool-cases, Each, List, Option, [], any, ap, arith, false, get_elem?, if◌then◌else◌, inl, inr,
  length, ltb, none, refl, some, suc, true, zero, ℕ, ◌+◌, ◌<◌, ◌==◌, ◌∙◌, ◌∷◌, ◌≡◌, ◌≢◌, ◌≤◌, ◌⊎◌,
}

abbrev pub AllConnected : List InputProfile → Type 0
AllConnected ps = Each (λ p. p.connected ≡ true) ps

-- An index at which a device is not connected.
pub record IsRemovable (ps : List InputProfile) (i : ℕ) : Type 0 where
  pub profile : InputProfile
  pub at : get_elem? ps i ≡ some profile
  pub connected : profile.connected ≡ false

older-cases :
    (i age : ℕ) (best : Option (ℕ × ℕ)) {k : ℕ × ℕ}
    → older i age best ≡ some k
    → (best ≡ some k) ⊎ (i ≡ k.0)
unfolding older
older-cases i age none {k = k} h = let same : (i, age) ≡ k = cc in inr (ap (λ k. k.0) same)
older-cases i age (some (j, least)) {k = k} h = elim (Bool-cases (ltb age least)) [
  | inl e ↦
      let here : some (i, age) ≡ some k = rw e at h in
      let same : (i, age) ≡ k = cc in inr (ap (λ k. k.0) same)
  | inr e ↦ inl (rw e at h)
]

some_ne : (k : ℕ × ℕ) → some k ≢ none
some_ne k h = cc

older-some : (i age : ℕ) (best : Option (ℕ × ℕ)) → older i age best ≢ none
unfolding older
older-some i age none h = some_ne (i, age) h
older-some i age (some (j, least)) h = elim (Bool-cases (ltb age least)) [
  | inl e ↦ some_ne (i, age) (rw e at h)
  | inr e ↦ some_ne (j, least) (rw e at h)
]

-- What the scan for the oldest finds, in the rest of a list from an index on.
oldest_from-place :
    (i : ℕ) (ps : List InputProfile) (best : Option (ℕ × ℕ)) {k : ℕ × ℕ}
    → oldest_from i ps best ≡ some k
    → (best ≡ some k) ⊎ ((j : ℕ) × (k.0 ≡ i + j) × IsRemovable ps j)
unfolding oldest_from
oldest_from-place i [] best h = inl h
oldest_from-place i (p ∷ ps) best {k = k} h = elim (Bool-cases p.connected) [
  | inl e ↦ shifted best (oldest_from-place (suc i) ps best {k = k} (rw e at h)) (λ b. inl b)
  | inr e ↦
      shifted (older i p.last_seen best)
        (oldest_from-place (suc i) ps (older i p.last_seen best) {k = k} (rw e at h))
        (λ b. elim (older-cases i p.last_seen best {k = k} b) [
          | inl kept ↦ inl kept
          | inr here ↦
              inr (0, omega (arith, here), record { profile = p; at = refl; connected = e })
        ])
]
  where
    shifted :
        (seed : Option (ℕ × ℕ))
        → (seed ≡ some k) ⊎ ((j : ℕ) × (k.0 ≡ suc i + j) × IsRemovable ps j)
        → (seed ≡ some k → (best ≡ some k) ⊎ ((j : ℕ) × (k.0 ≡ i + j) × IsRemovable (p ∷ ps) j))
        → (best ≡ some k) ⊎ ((j : ℕ) × (k.0 ≡ i + j) × IsRemovable (p ∷ ps) j)
    shifted seed (inl b) start = start b
    shifted seed (inr (j, same, w)) start = inr (
      suc j,
      omega (arith, same),
      record { profile = w.profile; at = w.at; connected = w.connected },
    )

pub oldest_from-IsRemovable :
    (ps : List InputProfile) {index age : ℕ}
    → oldest_from 0 ps none ≡ some (index, age)
    → IsRemovable ps index
oldest_from-IsRemovable ps {index = index} {age = age} h =
    elim (oldest_from-place 0 ps none {k = (index, age)} h) [
      | inl e ↦ cc
      | inr (j, same, w) ↦
          let equal : j ≡ index = omega (arith, same) in subst (IsRemovable ps) equal w
    ]

pub oldest_from-none :
    (i : ℕ) (ps : List InputProfile) (best : Option (ℕ × ℕ))
    → oldest_from i ps best ≡ none
    → (best ≡ none) × AllConnected ps
unfolding oldest_from
oldest_from-none i [] best h = (h, tt)
oldest_from-none i (p ∷ ps) best h = elim (Bool-cases p.connected) [
  | inl e ↦ let (seed, all) = oldest_from-none (suc i) ps best (rw e at h) in (seed, (e, all))
  | inr e ↦
      let (seed, all) = oldest_from-none (suc i) ps (older i p.last_seen best) (rw e at h) in
      absurd (older-some i p.last_seen best seed)
]

-- The list without the first profile that has the id.
without : InputProfileId → List InputProfile → List InputProfile
without id [] = []
without id (p ∷ ps) = let rest = without id ps in if has_id id p then ps else p ∷ rest

length-without :
    (id : InputProfileId) (ps : List InputProfile)
    → any (has_id id) ps ≡ true
    → length ps ≡ suc (length (without id ps))
unfolding without
length-without id [] h = cc
length-without id (p ∷ ps) h = elim (Bool-cases (has_id id p)) [
  | inl e ↦ rw e refl
  | inr e ↦ rw e (ap suc (length-without id ps (rw e at h)))
]

any-without :
    (id other : InputProfileId) (ps : List InputProfile)
    → other ≢ id
    → any (has_id other) (without id ps) ≡ any (has_id other) ps
unfolding without has_id
any-without id other [] ne = refl
any-without id other (p ∷ ps) ne = elim (Bool-cases (p.id == id)) [
  | inl e ↦ let differs : (p.id == other) ≡ false = ground (arith, e, ne) in rw (e, differs) refl
  | inr e ↦ rw (e, any-without id other ps ne) refl
]

-- So many ids, each of some profile, need as many profiles.
pigeonhole :
    (count candidate : ℕ) (ps : List InputProfile)
    → ((id : ℕ) → candidate ≤ id → id < candidate + count → any (has_id id) ps ≡ true)
    → count ≤ length ps
pigeonhole zero candidate ps h = omega arith
pigeonhole (suc count) candidate ps h =
    let rest = pigeonhole count (candidate + 1) (without candidate ps) (λ id low high.
      any-without candidate id ps (λ e. omega (arith, e, low))
      ∙ h id (omega (arith, low)) (omega (arith, high))) in
    omega (arith, rest, length-without candidate ps (h candidate (omega arith) (omega arith)))

free_id_from-none :
    (ps : List InputProfile) (count candidate : ℕ)
    → free_id_from ps count candidate ≡ none
    → (id : ℕ) → candidate ≤ id
    → id < candidate + count
    → any (has_id id) ps ≡ true
unfolding free_id_from
free_id_from-none ps zero candidate h id low high = absurd (omega (arith, low, high))
free_id_from-none ps (suc count) candidate h id low high =
    elim (Bool-cases (any (has_id candidate) ps)) [
      | inl taken ↦
          let here_or_later : (id ≡ candidate) ⊎ (candidate + 1 ≤ id) = omega (arith, low) in
          elim here_or_later [
            | inl same ↦ ap (λ id. any (has_id id) ps) same ∙ taken
            | inr later ↦
                free_id_from-none ps count (candidate + 1) (rw taken at h) id later
                  (omega (arith, high))
          ]
      | inr free ↦ let bad : some candidate ≡ none = rw free at h in cc
    ]

-- With fewer than eight profiles, an id is free.
pub free_id_from-some :
    (ps : List InputProfile)
    → length ps < input_profile_capacity
    → free_id_from ps input_profile_capacity 1 ≢ none
free_id_from-some ps room h =
    let full = pigeonhole 8 1 ps (free_id_from-none ps input_profile_capacity 1 h) in
    omega (arith, full, room)
