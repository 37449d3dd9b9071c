-- ===== src/Storage/Image/Decoded.antt =====
-- What holds of a state that src/storage.rs read from an image, whatever the bytes are.
use mathlib.Core.Path.{subst}
use hidshift.Storage.Image.{
  check_header, decode_storage_image, host_offset, profile_offset, read_hosts, read_presentation,
  read_profiles,
}
use hidshift.Storage.{
  StorageState, StoredHostProfile, host_capacity, invalid_length, push_host, stored_hosts_max,
  validate_state,
}
use hidshift.Storage.HostCodec.{decode_host_record}
use hidshift.InputProfile.Observe.{IsRegistry, new_registry-IsRegistry, restore-IsRegistry}
use hidshift.InputProfile.{InputProfileRegistry, input_profile_capacity, new_registry, restore}
use hidshift.Storage.Codec.{
  decode_global_settings, decode_input_profile, stored_host_record_len, stored_input_profile_len,
}
use hidshift.Prelude.{
  >>=-eq-ok, List, Result, [], arith, byte_of, err, leb, length, length-append, ltb, ok, or_err,
  passed, refl, slice, suc, sym, zero, ℕ, ◌++◌, ◌+◌, ◌∙◌, ◌∷◌, ◌≡◌, ◌≤◌,
}

or_err-ok :
    {E A : Type 0} {D : Type 0} (m : Result E A) (e : D) {a : A} → or_err m e ≡ ok a → m ≡ ok a
or_err-ok (ok a) e h = cc
or_err-ok (err why) e h = cc

read_profiles-IsRegistry :
    (image : List ℕ) (count index : ℕ) (r : InputProfileRegistry) {r2 : InputProfileRegistry}
    → read_profiles image count index r ≡ ok r2
    → IsRegistry r
    → IsRegistry r2
unfolding read_profiles
read_profiles-IsRegistry image zero index r {r2 = r2} h w =
    let same : r ≡ r2 = cc in subst IsRegistry same w
read_profiles-IsRegistry image (suc count) index r h w =
    let (p, read, h1) =
      >>=-eq-ok
        (decode_input_profile
          (slice image (profile_offset index) (profile_offset index + stored_input_profile_len)))
        _ h in
    let (kept, stored, h2) = >>=-eq-ok (or_err (restore r p) invalid_length) _ h1 in
    read_profiles-IsRegistry image count (suc index) kept h2
      (restore-IsRegistry r p (or_err-ok (restore r p) invalid_length stored) w)

-- The hosts are the only thing that the reading of the hosts changes, and there are four at most.
record KeepsProfiles (s t : StorageState) : Type 0 where
  profiles : t.input_profiles ≡ s.input_profiles
  few : length s.hosts ≤ stored_hosts_max → length t.hosts ≤ stored_hosts_max

push_host-Keeps :
    (s : StorageState) (host : StoredHostProfile) {t : StorageState}
    → push_host s host ≡ ok t
    → KeepsProfiles s t
unfolding push_host
push_host-Keeps s host {t = t} h =
    let (room, made) = passed (leb stored_hosts_max (length s.hosts)) host_capacity _ h in
    let same : record s { hosts = s.hosts ++ (host ∷ []) } ≡ t = cc in
    subst (KeepsProfiles s) same (record {
      profiles = refl;
      few = λ few. ground (arith, length-append s.hosts (host ∷ []), room);
    })

read_hosts-Keeps :
    (image : List ℕ) (count index : ℕ) (s : StorageState) {t : StorageState}
    → read_hosts image count index s ≡ ok t
    → KeepsProfiles s t
unfolding read_hosts
read_hosts-Keeps image zero index s {t = t} h =
    let same : s ≡ t = cc in
    subst (KeepsProfiles s) same (record { profiles = refl; few = λ few. few })
read_hosts-Keeps image (suc count) index s h =
    let (host, read, h1) =
      >>=-eq-ok
        (decode_host_record
          (slice image (host_offset index) (host_offset index + stored_host_record_len)))
        _ h in
    let (pushed, stored, h2) = >>=-eq-ok (push_host s host) _ h1 in
    let first = push_host-Keeps s host stored in
    let later = read_hosts-Keeps image count (suc index) pushed h2 in
    record { profiles = later.profiles ∙ first.profiles; few = λ few. later.few (first.few few) }

-- What `validate` checks, and the bounds of the two lists.
pub record IsSound (s : StorageState) : Type 0 where
  pub valid : validate_state s ≡ ok tt
  pub registry : IsRegistry s.input_profiles
  pub few_hosts : length s.hosts ≤ stored_hosts_max

-- A state that is read from an image is sound, whatever the image holds: it passes `validate`, its
-- hosts are at most four, and its devices are at most eight with different ids and identities.
pub decode_storage_image-IsSound :
    (image : List ℕ) {s : StorageState} → decode_storage_image image ≡ ok s → IsSound s
unfolding decode_storage_image
decode_storage_image-IsSound image {s = s} h =
    let (_, header, h1) = >>=-eq-ok (check_header image) _ h in
    let (settings, got, h2) = >>=-eq-ok (decode_global_settings (slice image 18 30)) _ h1 in
    let (room, h3) = passed (ltb input_profile_capacity (byte_of image 30)) invalid_length _ h2 in
    let (presentation, shown, h4) = >>=-eq-ok (read_presentation image) _ h3 in
    let (profiles, kept, h5) =
      >>=-eq-ok (read_profiles image (byte_of image 30) 0 new_registry) _ h4 in
    let (t, hosts, h6) = >>=-eq-ok (read_hosts image (byte_of image 16) 0 _) _ h5 in
    let (u, valid, h7) = >>=-eq-ok (validate_state t) _ h6 in
    let same : t ≡ s = cc in
    let keeps = read_hosts-Keeps image (byte_of image 16) 0 _ hosts in
    subst IsSound same (record {
      valid = valid;
      registry = subst IsRegistry (sym keeps.profiles) (
          read_profiles-IsRegistry image (byte_of image 30) 0 new_registry kept
            new_registry-IsRegistry);
      few_hosts = keeps.few (omega arith);
    })
