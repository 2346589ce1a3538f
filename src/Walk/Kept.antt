-- ===== src/Walk/Kept.antt =====
-- The mark of src/gc/collector.rs over the links of src/fstree/read.rs and the mark set of
-- src/packstore/markset.rs.
use core_rs.Prelude.{ℕ, ◌≡◌, ◌↔◌, Bool, true, false, Option, some, List, get_or, Result, ok}
use core_rs.Prelude.Bytes.{Bytes}
use core_rs.Key.{Key}
use core_rs.Gitobj.Links.{Link}
use core_rs.Gc.{mark_live}
use core_rs.Gc.Closure.{IsRead, Reach}
use core_rs.Markset.{Segment, contains}
use core_rs.Markset.Slots.{IsSegment, no_segment}
use core_rs.Markset.Writes.{present_at}
use core_rs.Markset.Refines.{Over}
use core_rs.Markset.Collect.{snapshot, first_set, marks, store_mark_exact}
use core_rs.Walk.{Decoders, links}
use core_rs.Walk.Honest.{links-IsHonest}

-- Over sealed segments whose buckets end inside their index: if the mark of the roots into the set
-- that new_mark_set makes of the store returns a set, that set contains the keys that the roots lead
-- to and no other, and each of these is in the snapshot, and its object, unless a link to it says
-- that it is a leaf, could be read and its links decoded.
pub kept_exact :
    (sealed : List Segment) (active : Option (List Key)) (foreign : List (List Key))
    (fits : (i : ℕ) → IsSegment (get_or sealed i no_segment)) {D C E : Type 0}
    (decoders : Decoders D C) (get_verified : Key → Result E Bytes) (canceled : ℕ → Bool)
    (roots : List Key) (fuel : ℕ) (m : Over sealed (snapshot sealed active foreign) fits)
    → mark_live
        (marks sealed active foreign fits)
        get_verified
        (links decoders)
        canceled
        fuel
        (first_set sealed active foreign fits)
        roots
      ≡ some (ok m)
    → ((k : Key)
        → (contains m.0 k ≡ true)
          ↔ ((l : Link) × Reach get_verified (links decoders) roots l × (k ≡ l.key)))
      × ((l : Link)
          → Reach get_verified (links decoders) roots l
          → (present_at sealed (snapshot sealed active foreign) l.key ≡ true)
            × (l.leaf ≡ false → (ls : List Link) × IsRead get_verified (links decoders) l.key ls))
kept_exact sealed active foreign fits decoders get_verified canceled roots fuel m h =
    store_mark_exact sealed active foreign fits get_verified (links decoders) canceled roots fuel m
      (links-IsHonest decoders get_verified) h
