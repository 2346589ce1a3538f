-- ===== src/Footer/Runs.antt =====
-- Runs of src/packstore/footer.rs on concrete inputs, and the theorems at them.
use core_rs.Prelude.{
  ℕ, ◌<◌, ◌≡◌, ◌≢◌, refl, ap, arith, some, List, [], ◌∷◌, length, replicate, get_or, ok,
}
use core_rs.Prelude.Bytes.{Bytes}
use core_rs.Prelude.Lex.{lex_lt, bytes_eq}
use core_rs.Key.{Key}
use core_rs.Footer.{
  IndexEntry, first_byte, sort_entries, insert_entry, build_index_section, parse_index_section,
  search_index,
}
use core_rs.Footer.Sorted.{IsDistinct, find}
use core_rs.Footer.Rows.{IsEntry}
use core_rs.Footer.Bucket.{found}
use core_rs.Footer.Lookup.{search_index-build_index_section}

abbrev key_of_sevens : Key
key_of_sevens = record { bytes = replicate 32 7 }

abbrev key_of_threes : Key
key_of_threes = record { bytes = replicate 32 3 }

abbrev two_entries : List IndexEntry
two_entries =
    record { k = key_of_sevens; off = 8; slen = 5 }
    ∷ record { k = key_of_threes; off = 59; slen = 1 }
    ∷ []

sorts_by_key :
    sort_entries two_entries
    ≡ record { k = key_of_threes; off = 59; slen = 1 }
      ∷ record { k = key_of_sevens; off = 8; slen = 5 }
      ∷ []
unfolding sort_entries insert_entry lex_lt
sorts_by_key = refl

finds_threes : found (find key_of_threes two_entries) ≡ some (59, 1)
unfolding find bytes_eq
finds_threes = refl

seven_IsEntry : IsEntry (record { k = key_of_sevens; off = 8; slen = 5 })
seven_IsEntry = record {
  key_len = refl;
  first_lt = omega arith;
  off_lt = omega arith;
  slen_lt = omega arith;
}

three_IsEntry : IsEntry (record { k = key_of_threes; off = 59; slen = 1 })
three_IsEntry = record {
  key_len = refl;
  first_lt = omega arith;
  off_lt = omega arith;
  slen_lt = omega arith;
}

keys_differ : key_of_sevens.bytes ≢ key_of_threes.bytes
keys_differ e =
    let heads : 7 ≡ 3 = ap (λ (x : Bytes). get_or x 0 0) e in absurd (omega (arith, heads))

two_entries-IsDistinct : IsDistinct two_entries
two_entries-IsDistinct = ((keys_differ, tt), (tt, tt))

search_index-build_index_section_example :
    (fanout : List ℕ) × (entries : Bytes) × (parse_index_section (build_index_section two_entries) 2
      ≡ ok (fanout, entries))
    × ((k : Key)
        → length k.bytes ≡ 32
        → first_byte k < 256
        → search_index fanout entries k ≡ some (found (find k two_entries)))
search_index-build_index_section_example =
    search_index-build_index_section two_entries (seven_IsEntry, (three_IsEntry, tt))
      two_entries-IsDistinct (omega arith)
