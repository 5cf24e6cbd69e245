-- ===== src/Tests/TlvRuns.antt =====
-- TLV records at concrete inputs.
use key_wallet.Base.{◌^◌, ◌≡◌, refl, ◌<◌, [], ◌∷◌, some, inl, inr, arith, length}
use key_wallet.Bytes.{put_uint16_be}
use key_wallet.Tlv.{tlv_format_len, Item, tlv_find_tag}
use key_wallet.Tlv.Walk.{tag_bytes, encode, IsItem}
use key_wallet.Tlv.Find.{encode_all, tlv_find_tag-encode_all, Finding, tlv_find_tag-Finding}

abbrev name_item : Item
name_item = record { tag = 0x71; value = 65 ∷ 66 ∷ [] }

abbrev long_tag_item : Item
long_tag_item = record { tag = 0x7f49; value = 7 ∷ [] }

name_item-IsItem : IsItem name_item
name_item-IsItem = (inl (omega arith, λ e. cc), omega arith)

long_tag_item-IsItem : IsItem long_tag_item
long_tag_item-IsItem = (inr (omega arith, omega arith, refl), omega arith)

tlv_find_tag-encode_all_example :
    tlv_find_tag (some (encode_all (name_item ∷ long_tag_item ∷ []))) 0x7f49 ≡ some (7 ∷ [])
tlv_find_tag-encode_all_example =
    tlv_find_tag-encode_all (name_item ∷ long_tag_item ∷ []) 0x7f49
      (name_item-IsItem, (long_tag_item-IsItem, tt))

tlv_find_tag-Finding_example :
    Finding 0x72 (0x71 ∷ 1 ∷ 5 ∷ []) (tlv_find_tag (some (0x71 ∷ 1 ∷ 5 ∷ [])) 0x72)
tlv_find_tag-Finding_example = tlv_find_tag-Finding (0x71 ∷ 1 ∷ 5 ∷ []) 0x72

small_item : length (encode long_tag_item) < 2 ^ 16
unfolding encode tag_bytes tlv_format_len put_uint16_be
small_item = omega arith
