-- ===== src/Storage/Image/Records.antt =====
-- The records of an image of src/storage.rs are read into the registry and the list that they were
-- written from.
use hidshift.Storage.Codec.{encode_input_profile, stored_host_record_len, stored_input_profile_len}
use hidshift.Storage.HostCodec.RoundTrip.{
  IsHost, decode-encode_host_record, length-encode_host_record,
}
use hidshift.Storage.Image.{host_offset, profile_offset, read_hosts, read_profiles}
use hidshift.InputProfile.{
  InputProfile, InputProfileRegistry, input_profile_capacity, restore, restored,
}
use hidshift.Storage.Image.Places.{block-front, block-rest, host_block, profile_block}
use hidshift.Storage.{StorageState, StoredHostProfile, host_capacity, push_host, stored_hosts_max}
use hidshift.Storage.HostCodec.{encode_host_record}
use mathlib.Core.List.{append-nil, append_assoc}
use hidshift.Storage.Codec.RoundTrip.{
  IsStorable, decode-encode_input_profile, durable_profile, length-encode_input_profile,
}
use hidshift.Prelude.{
  Each, List, [], ap, arith, length, length-append, ok, passes, refl, slice, suc, sym, ℕ, ◌*◌, ◌++◌,
  ◌+◌, ◌<◌, ◌∙◌, ◌∷◌, ◌≡◌, ◌≤◌,
}
use hidshift.InputProfile.Registry.{
  Distinct, Distinct-SameKeys, IsAbsent, SameKeys-append, pushed, restore-ok,
}

-- The registry that holds what the profiles keep, after the ones it holds.
unfoldable pub restore_all : InputProfileRegistry → List InputProfile → InputProfileRegistry
restore_all r [] = r
restore_all r (p ∷ profiles) = restore_all (pushed r (durable_profile p)) profiles

pushed-Distinct :
    (r : InputProfileRegistry) (p : InputProfile) (profiles : List InputProfile)
    → Distinct (r.profiles ++ (p ∷ [])) profiles
    → Distinct (pushed r (durable_profile p)).profiles profiles
unfolding restored
pushed-Distinct r p profiles d =
    Distinct-SameKeys (r.profiles ++ (p ∷ [])) (r.profiles ++ (durable_profile p ∷ [])) profiles
      (SameKeys-append r.profiles r.profiles p (durable_profile p)
        (record { ids = λ id. refl; identities = λ identity. refl }) refl refl)
      d

restore-durable :
    (r : InputProfileRegistry) (p : InputProfile)
    → IsAbsent p r.profiles
    → length r.profiles < input_profile_capacity
    → restore r (durable_profile p) ≡ ok (pushed r (durable_profile p))
unfolding restored
restore-durable r p absent room =
    restore-ok r (durable_profile p) (record { id = absent.id; identity = absent.identity }) room

pub read_profiles-block :
    (image : List ℕ) (index to : ℕ) (r : InputProfileRegistry) (profiles : List InputProfile)
    → slice image (profile_offset index) to ≡ profile_block profiles
    → to ≡ profile_offset index + length profiles * stored_input_profile_len
    → Each IsStorable profiles
    → Distinct r.profiles profiles
    → length r.profiles + length profiles ≤ input_profile_capacity
    → read_profiles image (length profiles) index r ≡ ok (restore_all r profiles)
unfolding read_profiles restore_all Distinct
read_profiles-block image index to r [] block end each d room = refl
read_profiles-block image index to r (p ∷ profiles) block end (w, each) (absent, d) room =
    let start = profile_offset index in
    let inside : start + stored_input_profile_len ≤ to = omega (arith, end) in
    let here =
      block-front image start to stored_input_profile_len (encode_input_profile p)
        (profile_block profiles) block (length-encode_input_profile p) inside in
    let next : profile_offset (suc index) ≡ start + stored_input_profile_len = omega arith in
    let behind : slice image (profile_offset (suc index)) to ≡ profile_block profiles =
      ap (λ o. slice image o to) next
      ∙ block-rest image start to stored_input_profile_len (encode_input_profile p)
          (profile_block profiles) block (length-encode_input_profile p) inside in
    let grown : length (r.profiles ++ (durable_profile p ∷ [])) ≡ length r.profiles + 1 =
      length-append r.profiles (durable_profile p ∷ []) in
    let later =
      read_profiles-block image (suc index) to (pushed r (durable_profile p)) profiles behind
        (omega (arith, end, next)) each (pushed-Distinct r p profiles d)
        (omega (arith, grown, room)) in
    rw (here, decode-encode_input_profile p w, restore-durable r p absent (omega (arith, room)))
      later

abbrev pub with_hosts : StorageState → List StoredHostProfile → StorageState
with_hosts s hosts = record s { hosts = hosts }

push_host-ok :
    (s : StorageState) (h : StoredHostProfile)
    → length s.hosts < stored_hosts_max
    → push_host s h ≡ ok (with_hosts s (s.hosts ++ (h ∷ [])))
unfolding push_host
push_host-ok s h room = passes _ host_capacity _ (ground (arith, room))

pub read_hosts-block :
    (image : List ℕ) (index to : ℕ) (s : StorageState) (hosts : List StoredHostProfile)
    → slice image (host_offset index) to ≡ host_block hosts
    → to ≡ host_offset index + length hosts * stored_host_record_len
    → Each IsHost hosts
    → length s.hosts + length hosts ≤ stored_hosts_max
    → read_hosts image (length hosts) index s ≡ ok (with_hosts s (s.hosts ++ hosts))
unfolding read_hosts
read_hosts-block image index to s [] block end each room =
    ap (λ hosts. ok (with_hosts s hosts)) (sym (append-nil s.hosts))
read_hosts-block image index to s (h ∷ hosts) block end (w, each) room =
    let start = host_offset index in
    let inside : start + stored_host_record_len ≤ to = omega (arith, end) in
    let here =
      block-front image start to stored_host_record_len (encode_host_record h) (host_block hosts)
        block (length-encode_host_record h) inside in
    let next : host_offset (suc index) ≡ start + stored_host_record_len = omega arith in
    let behind : slice image (host_offset (suc index)) to ≡ host_block hosts =
      ap (λ o. slice image o to) next
      ∙ block-rest image start to stored_host_record_len (encode_host_record h) (host_block hosts)
          block (length-encode_host_record h) inside in
    let grown : length (s.hosts ++ (h ∷ [])) ≡ length s.hosts + 1 =
      length-append s.hosts (h ∷ []) in
    let later =
      read_hosts-block image (suc index) to (with_hosts s (s.hosts ++ (h ∷ []))) hosts behind
        (omega (arith, end, next)) each (omega (arith, grown, room)) in
    rw (here, decode-encode_host_record h w, push_host-ok s h (omega (arith, room)))
      (later ∙ ap (λ hosts. ok (with_hosts s hosts)) (append_assoc s.hosts (h ∷ []) hosts))
