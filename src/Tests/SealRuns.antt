-- ===== src/Tests/SealRuns.antt =====
-- Runs of the sealing of records.
use key_wallet.Base.{
  Bool, false, ℕ, ◌≡◌, refl, sym, ap, length, true, List, [], ◌∷◌, ◌++◌, replicate, arith, ◌==◌,
}
use key_wallet.Bytes.{ok}
use key_wallet.Objects.Storage.{Outcome, failed, done}
use key_wallet.Container.Records.{
  Descriptor, Manifest, Protector, core_valid, sealed_header, record_header_build, identity_build,
  record_seal, record_unseal,
}
use key_wallet.Container.Extensions.{
  Extension, AreExtensions, encode_extensions, extensions_validate,
  extensions_validate-encode_extensions,
}
use key_wallet.Container.Headers.{IsDescriptor}
use key_wallet.Container.Sealed.{IsProtector, record_unseal-seal}

-- It stores the plaintext as it is, with a constant tag.
abbrev copier : Protector
copier = record {
  seal = λ i nonce aad plaintext. done (plaintext, replicate 16 7);
  unseal = λ i nonce aad stored tag. done stored;
}

abbrev first_or : Outcome (List ℕ × List ℕ) → List ℕ
first_or (failed e) = []
first_or (done p) = p.0

abbrev second_or : List ℕ → Outcome (List ℕ × List ℕ) → List ℕ
second_or d (failed e) = d
second_or d (done p) = p.1

same_stored : (b d : List ℕ) (o : Outcome (List ℕ × List ℕ)) → o ≡ done (b, d) → first_or o ≡ b
same_stored b d o e = ap (λ (x : Outcome (List ℕ × List ℕ)). first_or x) e

same_tag : (b d : List ℕ) (o : Outcome (List ℕ × List ℕ)) → o ≡ done (b, d) → second_or [] o ≡ d
same_tag b d o e = ap (λ (x : Outcome (List ℕ × List ℕ)). second_or [] x) e

copier-IsProtector : IsProtector copier
copier-IsProtector = record {
  opens = λ i nonce aad plaintext stored tag e.
      ap done (sym (same_stored stored tag (copier.seal i nonce aad plaintext) e));
  tag_length = λ i nonce aad plaintext stored tag e.
      ap (λ (b : List ℕ). length b)
        (sym (same_tag stored tag (copier.seal i nonce aad plaintext) e));
}

abbrev note : Descriptor
note = record {
  object_type = 3;
  object_tag = 1;
  generation = 2;
  logical_size = 2;
  record_id = 9;
  stored_size = 2;
  policy_id = 4;
  key_domain = 1;
  protection = 2;
  flags = 2;
  extension_offset = 0;
  extension_size = 0;
  transaction_group = 0;
}

note-IsDescriptor : IsDescriptor note
note-IsDescriptor = record {
  type_small = omega arith;
  tag_small = omega arith;
  generation_small = omega arith;
  logical_small = omega arith;
  id_small = omega arith;
  stored_small = omega arith;
  policy_small = omega arith;
  flags_small = omega arith;
  offset_small = omega arith;
  extension_small = omega arith;
  group_small = omega arith;
}

abbrev notes : Manifest
notes = record {
  manifest_flags = 0;
  namespace_id = 1;
  container_kind = 2;
  container_id = 7;
  manifest_generation = 2;
  previous_generation = 1;
  extensions_offset = 68;
  extensions_size = 0;
  total_size = 84;
  object_count = 1;
  has_object = true;
  object = note;
}

abbrev text : List ℕ
text = 65 ∷ 66 ∷ []

abbrev sealed_text : List ℕ
sealed_text = sealed_header note ++ (text ++ replicate 16 7)

seals : record_seal notes (replicate 16 0) copier text 100 ≡ done sealed_text
unfolding record_seal identity_build record_header_build core_valid
seals = refl

record_unseal-seal_example : record_unseal notes (replicate 16 0) copier sealed_text 64 ≡ done text
record_unseal-seal_example =
    record_unseal-seal notes (replicate 16 0) copier text sealed_text 100 64 copier-IsProtector
      note-IsDescriptor seals (omega arith)

abbrev two_extensions : List Extension
two_extensions =
    record { kind = 3; critical = true; value = 1 ∷ 2 ∷ [] }
    ∷ record { kind = 5; critical = false; value = [] }
    ∷ []

abbrev knows_three : ℕ → Bool
knows_three kind = kind == 3

two-AreExtensions : AreExtensions two_extensions
two-AreExtensions = (
  record { named = omega arith; value_small = omega arith },
  (record { named = omega arith; value_small = omega arith }, tt),
)

extensions_validate-encode_extensions_example :
    extensions_validate knows_three (encode_extensions two_extensions) ≡ ok
extensions_validate-encode_extensions_example =
    extensions_validate-encode_extensions knows_three two_extensions two-AreExtensions
