-- ===== src/Routing/Cycle.antt =====
-- Which slot the calls of src/routing.rs that search the table select.
use native.Mathlib.Nat.{mod-eq_of_lt, mod-eq-sub-mod, mod-lt, mod-add-mod, add-mod_right}
use hidshift.Prelude.{
  is_some, position_from, ◌≢◌, ◌↔◌, ℕ, zero, suc, ◌+◌, ◌-◌, ◌%◌, ◌≤◌, ◌<◌, ◌≡◌, ◌⊎◌, ◌∙◌, ap, inl,
  inr, refl, sym, Bool, true, false, Option, none, some, List, [], ◌∷◌, arith, leb, length, get_or,
  ok, err, Option-cases, Bool-cases,
}
use hidshift.Routing.{
  HostRouter, HostId, host_not_found, capacity_zero, capacity, set_active_host, next_populated_slot,
  slot_for_host, scan_populated, holds, all_none, next_slot,
}
use hidshift.Routing.Inv.{IsValid}

-- Whether the slot `k` steps after the active one holds a host.
abbrev pub populated : HostRouter → ℕ → Bool
populated r k = is_some (get_or r.hosts ((r.active_index + k) % capacity r) none)

-- `s` is `k` steps after the active slot and holds a host; the slots between hold none.
pub record Nearest (r : HostRouter) (first k s : ℕ) : Type 0 where
  pub from : first ≤ k
  pub reached : s ≡ (r.active_index + k) % capacity r
  pub held : populated r k ≡ true
  pub skipped : (j : ℕ) → first ≤ j → j < k → populated r j ≡ false

lt_or_eq : (i j : ℕ) → i ≤ j → (i ≡ j) ⊎ (suc i ≤ j)
lt_or_eq i j h = grind arith

scan_populated-some :
    (r : HostRouter) (left offset s : ℕ)
    → scan_populated r left offset ≡ some s
    → (k : ℕ) × (k < offset + left) × Nearest r offset k s
unfolding scan_populated
scan_populated-some r zero offset s e = absurd (ground arith)
scan_populated-some r (suc left) offset s e = elim (Bool-cases (populated r offset)) [
  | inl hit ↦ (
    offset,
    omega arith,
    record {
      from = omega arith;
      reached = ground arith;
      held = hit;
      skipped = λ j a b. absurd (omega arith);
    },
  )
  | inr miss ↦
      let rest = scan_populated-some r left (suc offset) s (ground arith) in
      (
        rest.0,
        omega (arith, rest.1),
        record {
          from = omega (arith, rest.2.from);
          reached = rest.2.reached;
          held = rest.2.held;
          skipped = λ j a b. elim (lt_or_eq offset j a) [
            | inl same ↦ rw (← same) miss
            | inr later ↦ rest.2.skipped j later b
          ];
        },
      )
]

scan_populated-none :
    (r : HostRouter) (left offset : ℕ)
    → scan_populated r left offset ≡ none
    → (j : ℕ) → offset ≤ j
    → j < offset + left
    → populated r j ≡ false
unfolding scan_populated
scan_populated-none r zero offset e j a b = absurd (omega arith)
scan_populated-none r (suc left) offset e j a b = elim (lt_or_eq offset j a) [
  | inl same ↦ ground arith
  | inr later ↦ scan_populated-none r left (suc offset) (ground arith) j later (omega arith)
]

-- Each slot is reached within one round.
round_trip : (a i n : ℕ) → a < n → i < n → (k : ℕ) × (1 ≤ k) × (k < 1 + n) × ((a + k) % n ≡ i)
round_trip a i n ha hi = elim (Bool-cases (leb (suc a) i)) [
  | inl ahead ↦
      (i - a, ground arith, ground arith, ap (λ t. t % n) (ground arith) ∙ mod-eq_of_lt hi)
  | inr behind ↦ (
    i + n - a,
    ground arith,
    ground arith,
    ap (λ t. t % n) (ground arith)
        ∙ mod-eq-sub-mod {n = i + n} {m = n} (omega arith)
        ∙ ap (λ t. t % n) (omega arith)
        ∙ mod-eq_of_lt hi,
  )
]

all_none_lem : (xs : List (Option HostId)) (i : ℕ) → all_none xs ≡ true → get_or xs i none ≡ none
unfolding all_none
all_none_lem [] i h = refl
all_none_lem (none ∷ xs) zero h = refl
all_none_lem (none ∷ xs) (suc i) h = all_none_lem xs i h
all_none_lem (some x ∷ xs) i h = cc

is_some-none : (o : Option HostId) → o ≡ none → is_some o ≡ false
is_some-none o e = rw e

-- When some slot holds a host, the call selects the first one that does, going round from the slot
-- after the active one, changes the active index to it and nothing else, and returns it.
pub next_populated_slot-Nearest :
    (r : HostRouter) (i : ℕ)
    → IsValid r
    → i < capacity r
    → is_some (get_or r.hosts i none) ≡ true
    → (k : ℕ) × (s : ℕ) × (k ≤ capacity r)
      × Nearest r 1 k s
      × (next_populated_slot r ≡ (ok (some s), record r { active_index = s }))
unfolding next_populated_slot
next_populated_slot-Nearest r i v hi held = elim (Option-cases (scan_populated r (capacity r) 1)) [
  | inl missed ↦
      let (k, from, below, e) = round_trip r.active_index i (capacity r) (ground arith) hi in
      absurd (ground (arith, scan_populated-none r (capacity r) 1 missed k))
  | inr (s, hit) ↦
      let (k, below, near) = scan_populated-some r (capacity r) 1 s hit in
      (
        k,
        s,
        omega arith,
        near,
        ground (arith, all_none_lem r.hosts i, is_some-none (get_or r.hosts i none)),
      )
]

all_none_of_empty :
    (xs : List (Option HostId)) (i : ℕ)
    → ((j : ℕ) → j < length xs → is_some (get_or xs j none) ≡ false)
    → all_none xs ≡ true
unfolding all_none
all_none_of_empty [] i h = refl
all_none_of_empty (none ∷ xs) i h = all_none_of_empty xs i (λ j b. h (suc j) (omega arith))
all_none_of_empty (some x ∷ xs) i h = sym (h 0 (omega arith))

-- When no slot holds a host, the call reports none and leaves the router as it was; a router with no
-- slots refuses it.
next_populated_slot_empty :
    (r : HostRouter)
    → ((j : ℕ) → j < capacity r → is_some (get_or r.hosts j none) ≡ false)
    → (next_populated_slot r ≡ (ok none, r))
      ⊎ ((capacity r ≡ 0) × (next_populated_slot r ≡ (err capacity_zero, r)))
unfolding next_populated_slot
next_populated_slot_empty r h = ground (arith, all_none_of_empty r.hosts 0 h)

-- `k` is the first slot of `xs`, counted from `i`, that holds `h`.
pub record First (h : HostId) (xs : List (Option HostId)) (i k : ℕ) : Type 0 where
  pub offset : ℕ
  pub at : k ≡ i + offset
  pub inside : offset < length xs
  pub held : get_or xs offset none ≡ some h
  pub earlier : (j : ℕ) → j < offset → get_or xs j none ≢ some h

holds_iff : (h : HostId) (o : Option HostId) → (holds h o ≡ true) ↔ (o ≡ some h)
holds_iff h none = (λ e. cc, λ e. cc)
holds_iff h (some k) = (λ e. ground arith, λ e. ground arith)

earlier_cons :
    (h : HostId) (x : Option HostId) (xs : List (Option HostId)) (n : ℕ)
    → holds h x ≡ false
    → ((j : ℕ) → j < n → get_or xs j none ≢ some h)
    → (j : ℕ) → j < suc n
    → get_or (x ∷ xs) j none ≢ some h
earlier_cons h x xs n miss rest zero b e = ground (arith, holds_iff h x)
earlier_cons h x xs n miss rest (suc j) b e = rest j (omega arith) e

position_from-First :
    (h : HostId) (i : ℕ) (xs : List (Option HostId)) (k : ℕ)
    → position_from (holds h) i xs ≡ some k
    → First h xs i k
unfolding position_from
position_from-First h i [] k e = absurd (ground arith)
position_from-First h i (x ∷ xs) k e = elim (Bool-cases (holds h x)) [
  | inl hit ↦ record {
    offset = 0;
    at = ground arith;
    inside = omega arith;
    held = (holds_iff h x).0 hit;
    earlier = λ j b. absurd (omega arith);
  }
  | inr miss ↦
      let rest = position_from-First h (suc i) xs k (ground arith) in
      record {
        offset = suc rest.offset;
        at = omega (arith, rest.at);
        inside = omega (arith, rest.inside);
        held = rest.held;
        earlier = earlier_cons h x xs rest.offset miss rest.earlier;
      }
]

position_from-none :
    (h : HostId) (i : ℕ) (xs : List (Option HostId))
    → position_from (holds h) i xs ≡ none
    → (j : ℕ) → get_or xs j none ≢ some h
unfolding position_from
position_from-none h i [] e j held = ground arith
position_from-none h i (x ∷ xs) e zero held = ground (arith, holds_iff h x)
position_from-none h i (x ∷ xs) e (suc j) held =
    position_from-none h (suc i) xs (ground (arith, holds_iff h x)) j held

-- On a router with slots, selecting a host makes the first slot that holds it active and returns
-- that slot; when no slot holds it, the call fails with `host_not_found` and changes nothing.
set_active_host-First :
    (r : HostRouter) (h : HostId)
    → 0 < capacity r
    → ((k : ℕ) × First h r.hosts 0 k
        × (set_active_host r h ≡ (ok k, record r { active_index = k })))
      ⊎ (((j : ℕ) → get_or r.hosts j none ≢ some h)
          × (set_active_host r h ≡ (err host_not_found, r)))
unfolding set_active_host slot_for_host
set_active_host-First r h n = elim (Option-cases (slot_for_host r h)) [
  | inl e ↦ inr (position_from-none h 0 r.hosts (ground arith), ground arith)
  | inr (k, e) ↦ inl (k, position_from-First h 0 r.hosts k (ground arith), ground arith)
]

-- `n` calls of `next_slot` in a row.
pub cycled : ℕ → HostRouter → HostRouter
cycled zero r = r
cycled (suc n) r = cycled n (next_slot r).1

cycled_lem :
    (n : ℕ) (r : HostRouter)
    → r.active_index < capacity r
    → cycled n r ≡ record r { active_index = (r.active_index + n) % capacity r }
unfolding cycled next_slot
cycled_lem zero r h = ground (arith, mod-eq_of_lt h)
cycled_lem (suc n) r h = ground (
  arith,
  cycled_lem n (next_slot r).1,
  mod-lt (r.active_index + 1) {m = capacity r},
  mod-add-mod (r.active_index + 1) (capacity r) n,
)

-- `next_slot` visits every slot: the k-th call selects the slot k places on, and as many calls as
-- there are slots come back to the router they started from.
cycled_round :
    (r : HostRouter) (n : ℕ)
    → r.active_index < capacity r
    → (cycled n r ≡ record r { active_index = (r.active_index + n) % capacity r })
      × (cycled (capacity r) r ≡ r)
cycled_round r n h = (
  cycled_lem n r h,
  cycled_lem (capacity r) r h
      ∙ ground (arith, add-mod_right r.active_index (capacity r), mod-eq_of_lt h),
)
