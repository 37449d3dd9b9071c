-- ===== src/Storage/Image/Places.antt =====
-- The loops of src/storage.rs over records write and read one block of records after another.
use hidshift.Storage.Codec.RoundTrip.{length-encode_input_profile}
use hidshift.InputProfile.{InputProfile}
use hidshift.Storage.HostCodec.{encode_host_record}
use hidshift.Storage.{StoredHostProfile}
use hidshift.Storage.Codec.{encode_input_profile, stored_host_record_len, stored_input_profile_len}
use hidshift.Storage.HostCodec.RoundTrip.{length-encode_host_record}
use hidshift.Prelude.{
  List, [], ap, arith, drop, drop-append_exact, length, length-append, slice, slice-later,
  slice-shorter, suc, sym, take, take-append_exact, write_at, write_at-append, write_at-nil, ℕ, ◌*◌,
  ◌++◌, ◌+◌, ◌∙◌, ◌∷◌, ◌≡◌, ◌≤◌,
}
use hidshift.Storage.Image.{host_offset, profile_offset, write_hosts, write_profiles}

-- The records of a list, one behind the other.
abbrev pub joined : (T : Type 0) → (T → List ℕ) → List T → List ℕ
joined T encode [] = []
joined T encode (x ∷ xs) = encode x ++ joined T encode xs

pub length-joined :
    {T : Type 0} (encode : T → List ℕ) (size : ℕ) (xs : List T)
    → ((x : T) → length (encode x) ≡ size)
    → length (joined T encode xs) ≡ length xs * size
length-joined encode size [] h = omega arith
length-joined {T = T} encode size (x ∷ xs) h =
    omega
      (arith, length-append (encode x) (joined T encode xs), h x, length-joined encode size xs h)

abbrev pub profile_block : List InputProfile → List ℕ
profile_block = joined InputProfile encode_input_profile

abbrev pub host_block : List StoredHostProfile → List ℕ
host_block = joined StoredHostProfile encode_host_record

pub write_profiles-block :
    (image : List ℕ) (index : ℕ) (profiles : List InputProfile)
    → write_profiles image index profiles
      ≡ write_at image (profile_offset index) (profile_block profiles)
unfolding write_profiles
write_profiles-block image index [] = sym (write_at-nil image (profile_offset index))
write_profiles-block image index (p ∷ profiles) =
    let next : profile_offset (suc index) ≡ profile_offset index + stored_input_profile_len =
      omega arith in
    let block = profile_block profiles in
    write_profiles-block (write_at image (profile_offset index) (encode_input_profile p))
      (suc index) profiles
    ∙ ap (λ o. write_at (write_at image (profile_offset index) (encode_input_profile p)) o block)
        next
    ∙ write_at-append image (profile_offset index) (encode_input_profile p) block
        stored_input_profile_len (length-encode_input_profile p)

pub write_hosts-block :
    (image : List ℕ) (index : ℕ) (hosts : List StoredHostProfile)
    → write_hosts image index hosts ≡ write_at image (host_offset index) (host_block hosts)
unfolding write_hosts
write_hosts-block image index [] = sym (write_at-nil image (host_offset index))
write_hosts-block image index (h ∷ hosts) =
    let next : host_offset (suc index) ≡ host_offset index + stored_host_record_len = omega arith in
    let block = host_block hosts in
    write_hosts-block (write_at image (host_offset index) (encode_host_record h)) (suc index) hosts
    ∙ ap (λ o. write_at (write_at image (host_offset index) (encode_host_record h)) o block) next
    ∙ write_at-append image (host_offset index) (encode_host_record h) block stored_host_record_len
        (length-encode_host_record h)

-- The first record of a block, and the block behind it.
module _ (image : List ℕ) (from to size : ℕ) (front rest : List ℕ)
    (block : slice image from to ≡ front ++ rest) (sized : length front ≡ size)
    (inside : from + size ≤ to) where
  pub block-front : slice image from (from + size) ≡ front
  block-front =
      slice-shorter image from size to inside
      ∙ ap (take size) block
      ∙ take-append_exact front rest size sized

  pub block-rest : slice image (from + size) to ≡ rest
  block-rest =
      slice-later image from size to
      ∙ ap (drop size) block
      ∙ drop-append_exact front rest size sized
