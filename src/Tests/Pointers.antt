-- ===== src/Tests/Pointers.antt =====
-- The pointer helpers at concrete inputs.
use boltdb_rs.Base.{
  ℕ, ◌+◌, ◌-◌, ◌≤◌, ◌≡◌, ◌↔◌, refl, List, [], ◌∷◌, arith, ok, fault, wild_read, length, take, drop,
  release, sub_word,
}
use boltdb_rs.Memory.{read}
use boltdb_rs.Pointers.{unsafe_add, unsafe_index, unsafe_byte_slice, unsafe_byte_slice-eq-ok_iff}

-- The third of the values of 8 bytes behind a header of 16 bytes would be at 4128.
third_word : unsafe_index 8 4096 2 8 2 ≡ 4240
unfolding unsafe_index unsafe_add
third_word = refl

abbrev five : List ℕ
five = 1 ∷ 2 ∷ 3 ∷ 4 ∷ 5 ∷ []

slice_of_five : unsafe_byte_slice release five 1 1 3 ≡ ok (3 ∷ 4 ∷ [])
unfolding unsafe_byte_slice sub_word read
slice_of_five = refl

slice_reversed : unsafe_byte_slice release five 1 3 1 ≡ fault wild_read
unfolding unsafe_byte_slice sub_word read
slice_reversed = refl

unsafe_byte_slice-eq-ok_iff_example :
    (unsafe_byte_slice release five 1 1 3 ≡ ok (3 ∷ 4 ∷ []))
    ↔ ((1 ≤ 3) × (1 + 3 ≤ length five) × (3 ∷ 4 ∷ [] ≡ take (3 - 1) (drop (1 + 1) five)))
unsafe_byte_slice-eq-ok_iff_example =
    unsafe_byte_slice-eq-ok_iff release five 1 1 3 (3 ∷ 4 ∷ []) (omega arith) (omega arith)
