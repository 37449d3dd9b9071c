-- ===== src/OutputTarget/Next.antt =====
-- Which computer `next_ready_computer_target` of src/output_target.rs gives.
use hidshift.Routing.{host}
use hidshift.OutputTarget.{
  is_host, or_later, computer_at, next_ready_computer_target, selected_index, HostId, OutputTarget,
  ble, ble_host_ready, scan_computers, wired, wired_computer,
}
use hidshift.Prelude.{
  ◌-◌, ◌/◌, ◌^◌, ◌≢◌, ◌==◌, Bool-cases, Option-cases, ap, inl, inr, sym, ◌∙◌, ◌⊎◌, Bool, Option,
  arith, false, none, refl, some, suc, true, zero, ℕ, ◌%◌, ◌+◌, ◌<◌, ◌≡◌, ◌≤◌,
}

-- The place of an offset from the selected computer, among wired and the four BLE hosts.
abbrev pub place : ℕ → ℕ → ℕ
place from offset = (from + offset) % 5

-- The first of the offsets `from`, `from + 1`, … below `end` whose place has a ready computer.
pub record First (at : ℕ → Option OutputTarget) (index from end : ℕ) (target : OutputTarget)
    : Type 0 where
  pub offset : ℕ
  pub after : from ≤ offset
  pub within : offset < end
  pub found : at (place index offset) ≡ some target
  pub skipped : (j : ℕ) → from ≤ j → j < offset → at (place index j) ≡ none

skipped_from :
    (at : ℕ → Option OutputTarget) (index offset end : ℕ)
    → at (place index offset) ≡ none
    → ((j : ℕ) → offset + 1 ≤ j → j < end → at (place index j) ≡ none)
    → (j : ℕ) → offset ≤ j
    → j < end
    → at (place index j) ≡ none
skipped_from at index offset end e rest j k l =
    let cases : (offset ≡ j) ⊎ (offset + 1 ≤ j) = omega arith in
    elim cases [
      | inl same ↦ ap (λ i. at (place index i)) (sym same) ∙ e
      | inr later ↦ rest j later l
    ]

scan_computers-none :
    (at : ℕ → Option OutputTarget) (index count offset : ℕ)
    → scan_computers at index count offset ≡ none
    → (j : ℕ) → offset ≤ j
    → j < offset + count
    → at (place index j) ≡ none
unfolding scan_computers or_later
scan_computers-none at index zero offset h j k l = absurd (omega arith)
scan_computers-none at index (suc count) offset h j k l =
    elim (Option-cases (at (place index offset))) [
      | inl e ↦
          skipped_from at index offset (offset + suc count) e
            (λ i m n. scan_computers-none at index count (offset + 1) (rw e at h) i m (omega arith))
            j k l
      | inr (t, e) ↦ let bad : some t ≡ none = rw e at h in cc
    ]

-- The target is ready: wired when wired is, a BLE host when its bit is set.
unfoldable pub Usable : Bool → ℕ → OutputTarget → Type 0
Usable wired_ready mask wired = wired_ready ≡ true
Usable wired_ready mask (ble host) = ble_host_ready mask host ≡ true

-- The bit of a BLE host, of which there are four, is set in the mask.
abbrev pub HasBit : ℕ → HostId → Type 0
HasBit mask host = (1 ≤ host) × (host ≤ 4) × (mask / 2 ^ (host - 1) % 2 ≡ 1)

-- A computer is ready: the wired one over its cable, or over the BLE host that is linked to it; another
-- one over the BLE host of its place, which is not the linked one.
pub data IsReady (wired_ready : Bool) (mask : ℕ) (linked : Option HostId) : ℕ → Type 0 where
  over_wire : wired_ready ≡ true → IsReady wired_ready mask linked 0
  over_linked :
      (host : HostId) → linked ≡ some host → HasBit mask host → IsReady wired_ready mask linked 0
  over_ble :
      (host : HostId) → linked ≢ some host → HasBit mask host → IsReady wired_ready mask linked host

ble_host_ready-HasBit :
    (mask : ℕ) (host : HostId) → HasBit mask host → ble_host_ready mask host ≡ true
unfolding ble_host_ready
ble_host_ready-HasBit mask host (low, high, bit) = ground (arith, low, high, bit)

wired_computer-ready :
    (mask : ℕ) (wired_ready : Bool) (host : HostId)
    → HasBit mask host
    → wired_computer wired_ready mask (some host) ≢ none
unfolding wired_computer
wired_computer-ready mask true host bit h = cc
wired_computer-ready mask false host bit h =
    let bad : some (ble host) ≡ none = rw (ble_host_ready-HasBit mask host bit) at h in cc

wired_computer-wire :
    (mask : ℕ) (wired_ready : Bool) (linked : Option HostId)
    → wired_ready ≡ true
    → wired_computer wired_ready mask linked ≢ none
unfolding wired_computer
wired_computer-wire mask true linked e h = cc
wired_computer-wire mask false linked e h = cc

not_linked :
    (linked : Option HostId) (host : HostId) → linked ≢ some host → is_host linked host ≡ false
not_linked none host ne = refl
not_linked (some other) host ne = elim (Bool-cases (other == host)) [
  | inl e ↦ let same : other ≡ host = ground (arith, e) in absurd (ne (ap some same))
  | inr e ↦ e
]

-- The loop does not go on at the place of a ready computer.
computer_at-IsReady :
    (wired_ready : Bool) (mask : ℕ) (linked : Option HostId) {index : ℕ}
    → IsReady wired_ready mask linked index
    → computer_at wired_ready mask linked index ≢ none
unfolding computer_at
computer_at-IsReady wired_ready mask linked (over_wire e) h =
    wired_computer-wire mask wired_ready linked e h
computer_at-IsReady wired_ready mask linked (over_linked host e bit) h =
    wired_computer-ready mask wired_ready host bit
      (ap (wired_computer wired_ready mask) (sym e) ∙ h)
computer_at-IsReady wired_ready mask linked (over_ble host ne bit) h =
    let there : (host == 0) ≡ false = ground (arith, bit.0) in
    let taken : some (ble host) ≡ none =
      rw (there, not_linked linked host ne, ble_host_ready-HasBit mask host bit) at h in
    cc

-- The place of a target's computer: the linked BLE host shares the place of the wired computer.
pub data IsPlace (linked : Option HostId) : OutputTarget → ℕ → Type 0 where
  of_wired : IsPlace linked wired 0
  of_linked : (host : HostId) → linked ≡ some host → IsPlace linked (ble host) 0
  of_ble : (host : HostId) → linked ≢ some host → IsPlace linked (ble host) host

linked_host :
    (linked : Option HostId) (host : HostId) → linked ≡ some host → is_host linked host ≡ true
linked_host none host e = cc
linked_host (some other) host e = let same : other ≡ host = cc in ground (arith, same)

selected_index-place :
    (linked : Option HostId) {selected : OutputTarget} {at : ℕ}
    → IsPlace linked selected at
    → at ≤ 4
    → selected_index selected linked ≡ at
unfolding selected_index
selected_index-place linked of_wired low = refl
selected_index-place linked (of_linked host e) low = rw (linked_host linked host e) refl
selected_index-place linked (of_ble host ne) low =
    rw (not_linked linked host ne) (ground (arith, low))

-- Every other place is at one of the four offsets.
offset_of : (at k : ℕ) → at ≤ 4 → k ≤ 4 → k ≢ at → (j : ℕ) × (1 ≤ j) × (j < 5) × (place at j ≡ k)
offset_of at k a b ne =
    ((k + 5 - at) % 5, omega (arith, a, b, ne), omega arith, omega (arith, a, b))

-- It gives nothing only when no computer is ready but perhaps the selected one, be it over its cable,
-- over the BLE host that is linked to the wired computer, or over its own BLE host. The selected target
-- is one of the five computers.
pub next_ready_computer_target-none :
    (selected : OutputTarget) (wired_ready : Bool) (mask : ℕ) (linked : Option HostId) {at : ℕ}
    (k : ℕ)
    → IsPlace linked selected at
    → at ≤ 4
    → next_ready_computer_target selected wired_ready mask linked ≡ none
    → k ≤ 4
    → k ≢ at
    → ¬ IsReady wired_ready mask linked k
unfolding next_ready_computer_target
next_ready_computer_target-none selected wired_ready mask linked {at = at} k it low h high ne
      ready_k =
    let (j, from, below, same) = offset_of at k low high ne in
    let none_there =
      scan_computers-none (computer_at wired_ready mask linked) (selected_index selected linked) 4 1
        h j from below in
    let here : place (selected_index selected linked) j ≡ k =
      ap (λ index. place index j) (selected_index-place linked it low) ∙ same in
    computer_at-IsReady wired_ready mask linked ready_k
      (ap (computer_at wired_ready mask linked) (sym here) ∙ none_there)
