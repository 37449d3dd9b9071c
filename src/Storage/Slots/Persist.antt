-- ===== src/Storage/Slots/Persist.antt =====
-- `persist_storage_state` of src/storage.rs loses nothing, whatever becomes of the write.
use mathlib.Core.Path.{subst}
use hidshift.Storage.Image.RoundTrip.{IsStorableState, decode-encode_storage_image, durable}
use hidshift.Storage.{StorageError, StorageState, flash_verify, validate_state}
use hidshift.Storage.Slots.Newest.{
  newest-next, newest-none, newest-only, newest-reading, newest-some, reading,
}
use hidshift.Prelude.{
  inl, inr, none, then_ok, ◌%◌, ◌+◌, ◌<◌, ◌^◌, ◌⊎◌, >>=-eq-ok, List, Result, [], ap, arith, err,
  is_some, not, ok, passed, refl, some, sym, true, ℕ, ◌>>◌, ◌||◌, ◌∙◌, ◌∷◌, ◌≡◌,
}
use hidshift.Storage.Slots.{
  restore_latest_storage_state, StorageSlot, StorageSlotBackend, StorageSlotIndex,
  StorageWriteResult, newest, next_target, other, persist_storage_state, slot_a, slot_b, to_option,
  verify_slot, write_image,
}
use hidshift.Storage.Image.{decode_storage_image, encode_storage_image, same_bytes}

-- What the slots of a backend promise: a write, also one that fails, leaves the other slot alone.
pub record LeavesOther {B : Type 0} (backend : StorageSlotBackend B) : Type 0 where
  pub kept :
      (b : B) (i : StorageSlotIndex) (image : List ℕ)
      → backend.slot (backend.write_slot b i image).1 (other i) ≡ backend.slot b (other i)

other-other : (i : StorageSlotIndex) → other (other i) ≡ i
unfolding other
other-other slot_a = refl
other-other slot_b = refl

pub same_bytes_refl : (xs : List ℕ) → same_bytes xs xs ≡ true
unfolding same_bytes
same_bytes_refl [] = refl
same_bytes_refl (x ∷ xs) = ground (arith, same_bytes_refl xs)

pub same_bytes-eq : (xs ys : List ℕ) → same_bytes xs ys ≡ true → xs ≡ ys
unfolding same_bytes
same_bytes-eq [] [] h = refl
same_bytes-eq [] (y ∷ ys) h = cc
same_bytes-eq (x ∷ xs) [] h = cc
same_bytes-eq (x ∷ xs) (y ∷ ys) h =
    let head : x ≡ y = ground arith in
    let tail : xs ≡ ys = same_bytes-eq xs ys (ground arith) in rw (head, tail) refl

pub persist-writes :
    {B : Type 0} (backend : StorageSlotBackend B) (b : B) (s : StorageState)
    (target : StorageSlotIndex) {image : List ℕ}
    → next_target (newest backend b) ≡ target
    → (validate_state s >> encode_storage_image s) ≡ ok image
    → persist_storage_state backend b s ≡ write_image backend b s target (ok image)
unfolding persist_storage_state
persist-writes backend b s target at made =
    ap (λ t. write_image backend b s t (validate_state s >> encode_storage_image s)) at
    ∙ ap (write_image backend b s target) made

module _ {B : Type 0} (backend : StorageSlotBackend B) (law : LeavesOther backend) where
  write_image-kept :
      (b : B) (s : StorageState) (target : StorageSlotIndex) (image : Result StorageError (List ℕ))
      → backend.slot (write_image backend b s target image).1 (other target)
        ≡ backend.slot b (other target)
  unfolding write_image
  write_image-kept b s target (err why) = refl
  write_image-kept b s target (ok image) = law.kept b target image

  persist-kept :
      (b : B) (s : StorageState) (i : StorageSlotIndex)
      → next_target (newest backend b) ≡ i
      → backend.slot (persist_storage_state backend b s).1 (other i) ≡ backend.slot b (other i)
  unfolding persist_storage_state
  persist-kept b s i at = rw (sym at) (
      write_image-kept b s (next_target (newest backend b))
        (validate_state s >> encode_storage_image s))

  first_target : (b : B) → newest backend b ≡ none → next_target (newest backend b) ≡ slot_a
  unfolding next_target
  first_target b h = rw h refl

  next_target-other :
      (b : B) {old : StorageSlot}
      → newest backend b ≡ some old
      → next_target (newest backend b) ≡ other old.index
  unfolding next_target
  next_target-other b h = rw h refl

  -- A persist, with any outcome of the write, also a failed or a torn one, leaves the slot of the
  -- newest state as it is, and a state can be restored afterwards.
  pub persist_storage_state-Survives :
      (b : B) (s : StorageState) {old : StorageSlot}
      → newest backend b ≡ some old
      → (backend.slot (persist_storage_state backend b s).1 old.index ≡ backend.slot b old.index)
        × (found : StorageSlot) × (newest backend (persist_storage_state backend b s).1
            ≡ some found)
  persist_storage_state-Survives b s {old = old} h =
      let after = (persist_storage_state backend b s).1 in
      let kept : backend.slot after old.index ≡ backend.slot b old.index =
        subst (λ i. backend.slot after i ≡ backend.slot b i) (other-other old.index)
          (persist-kept b s (other old.index) (next_target-other b h)) in
      let reads : reading backend after old.index ≡ some old.state =
        ap (λ bytes. to_option (decode_storage_image bytes)) kept ∙ newest-reading backend b h in
      let (found, e) = newest-some backend after old.index reads in (kept, found, e)

  -- The outcome of a successful write.
  write_image-ok :
      (b : B) (s : StorageState) (target : StorageSlotIndex) (image : Result StorageError (List ℕ))
      {r : StorageWriteResult}
      → (write_image backend b s target image).0 ≡ ok r
      → (bytes : List ℕ) × (image ≡ ok bytes)
        × (backend.slot (write_image backend b s target image).1 target ≡ bytes)
  unfolding write_image verify_slot
  write_image-ok b s target (err why) h = cc
  write_image-ok b s target (ok image) h =
      let after = (backend.write_slot b target image).1 in
      let (_, _, verified) = >>=-eq-ok (backend.write_slot b target image).0 _ h in
      let (same, _) =
        passed
          (not (same_bytes (backend.slot after target) image)
            || not (is_some (to_option (decode_storage_image (backend.slot after target)))))
          flash_verify _ verified in
      (image, refl, same_bytes-eq (backend.slot after target) image (ground arith))

  persisted-reading :
      (b : B) (s : StorageState) {r : StorageWriteResult}
      → IsStorableState s
      → (persist_storage_state backend b s).0 ≡ ok r
      → reading backend (persist_storage_state backend b s).1 (next_target (newest backend b))
        ≡ some (durable s)
  unfolding persist_storage_state
  persisted-reading b s w h =
      let (bytes, made, at) =
        write_image-ok b s (next_target (newest backend b))
          (validate_state s >> encode_storage_image s) h in
      let (image, encoded, decoded) = decode-encode_storage_image s w in
      let same : ok bytes ≡ ok image = sym made ∙ then_ok (validate_state s) _ w.valid ∙ encoded in
      let same_bytes : bytes ≡ image = cc in
      ap (λ bytes. to_option (decode_storage_image bytes)) (at ∙ same_bytes) ∙ ap to_option decoded

  same_generation : (s : StorageState) → (durable s).generation ≡ s.generation
  unfolding durable
  same_generation s = refl

  -- A persist that succeeds has written the state: after it the state is restored, but for what the
  -- profiles do not keep. Either no slot held a state, or the new generation follows that of the
  -- newest state, also across the wrap.
  pub persist_storage_state-Restored :
      (b : B) (s : StorageState) {r : StorageWriteResult}
      → IsStorableState s
      → (newest backend b ≡ none)
        ⊎ ((old : StorageSlot) × (newest backend b ≡ some old)
            × (old.state.generation < 2 ^ 32)
            × (s.generation ≡ (old.state.generation + 1) % 2 ^ 32))
      → (persist_storage_state backend b s).0 ≡ ok r
      → restore_latest_storage_state backend (persist_storage_state backend b s).1
        ≡ some (durable s)
  unfolding restore_latest_storage_state
  persist_storage_state-Restored b s w (inl fresh) h =
      let after = (persist_storage_state backend b s).1 in
      let target : next_target (newest backend b) ≡ slot_a = first_target b fresh in
      let written : reading backend after slot_a ≡ some (durable s) =
        ap (reading backend after) (sym target) ∙ persisted-reading b s w h in
      let empty : reading backend after (other slot_a) ≡ none =
        ap (λ bytes. to_option (decode_storage_image bytes)) (persist-kept b s slot_a target)
        ∙ newest-none backend b (other slot_a) fresh in
      newest-only backend after slot_a empty written
  persist_storage_state-Restored b s w (inr (old, e, small, g)) h =
      let after = (persist_storage_state backend b s).1 in
      let target : next_target (newest backend b) ≡ other old.index = next_target-other b e in
      let written : reading backend after (other old.index) ≡ some (durable s) =
        ap (reading backend after) (sym target) ∙ persisted-reading b s w h in
      let kept : reading backend after (other (other old.index)) ≡ some old.state =
        ap (λ bytes. to_option (decode_storage_image bytes))
          (persist-kept b s (other old.index) target)
        ∙ ap (reading backend b) (other-other old.index)
        ∙ newest-reading backend b e in
      newest-next backend after (other old.index) kept written small (same_generation s ∙ g)
