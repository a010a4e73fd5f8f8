-- ===== src/AccessStore/Tests.antt =====
-- The theorem on the access counters at a store in memory.
use mmdb.Common.{
  String, sym, ltb, false, Bool-cases, inl, inr, if◌then◌else◌, min, ℕ, zero, suc, Option, some,
  List, [], ◌∷◌, ◌++◌, ◌≡◌, refl, arith,
}
use mmdb.Common.Bytes.{Bytes}
use mmdb.Common.BTreeMap as BTreeMap
use mmdb.Common.Int.{ℤ, pos, negsuc}
use mmdb.Words.{usize_max}
use mmdb.Errors.{ok}
use mmdb.Engine.{Engine, Reply, done, failed, Write, insert, remove}
use mmdb.Engine.Laws.{IsLawful, written}
use mmdb.Engine.Commits.{commit_with}
use mmdb.Engine.Maps.{lookup}
use mmdb.Engine.Memory.{memory_engine, memory_engine-IsLawful}
use mmdb.AccessStore.{
  AccessStats, AccessSerde, access_key, accessed, part_access, parse_stats, get, record_loop,
  record_access,
}
use mmdb.AccessStore.Recorded.{IsFaithful, count_of, time_of, get-record_access}

abbrev encode_stats : AccessStats → Bytes
encode_stats x = elim x.last_accessed_at_ms [
  | pos n ↦ x.node_id ∷ x.access_count ∷ 0 ∷ n ∷ []
  | negsuc n ↦ x.node_id ∷ x.access_count ∷ 1 ∷ n ∷ []
]

abbrev decode_stats : Bytes → Reply AccessStats
decode_stats (node_id ∷ access_count ∷ sign ∷ n ∷ []) =
    if ltb usize_max access_count
    then failed "not a u64"
    else done record {
      node_id = node_id;
      access_count = access_count;
      last_accessed_at_ms = elim sign [ zero ↦ pos n | suc _ ↦ negsuc n ];
    }
decode_stats _ = failed "not counters"

abbrev write_stats : AccessStats → Reply Bytes
write_stats x = if ltb usize_max x.access_count then failed "not a u64" else done (encode_stats x)

abbrev plain : AccessSerde
plain = record { encode = write_stats; decode = decode_stats }

done_inj {ℓ} : {A : Type ℓ} {a b : A} → ◌≡◌ {A = Reply A} (done a) (done b) → a ≡ b
done_inj e = cc

failed-done : {A : Type 0} {text : String} {a : A} → ◌≡◌ {A = Reply A} (failed text) (done a) → ⊥
failed-done e = cc

decode-encode_stats :
    (node_id access_count : ℕ) (time : ℤ)
    → ltb usize_max access_count ≡ false
    → let x : AccessStats = record {
      node_id = node_id;
      access_count = access_count;
      last_accessed_at_ms = time;
    } in
      decode_stats (encode_stats x) ≡ done x
decode-encode_stats node_id access_count (pos n) h = rw h refl
decode-encode_stats node_id access_count (negsuc n) h = rw h refl

plain-IsFaithful : IsFaithful plain
plain-IsFaithful x bytes h = elim (Bool-cases (ltb usize_max x.access_count)) [
  | inl large ↦ absurd (failed-done (rw large at h))
  | inr small ↦
      let same : encode_stats x ≡ bytes = done_inj (rw small at h) in
      rw (sym same) (decode-encode_stats x.node_id x.access_count x.last_accessed_at_ms small)
]

abbrev engine : Engine
engine = memory_engine 10

abbrev laws : IsLawful engine
laws = memory_engine-IsLawful 10

abbrev once : AccessStats
once = record { node_id = 7; access_count = 1; last_accessed_at_ms = pos 5 }

abbrev first_state : List Write
first_state = insert part_access (access_key 1 7) (7 ∷ 1 ∷ 0 ∷ 5 ∷ []) ∷ []

first_access : record_access engine plain 1 [] (7 ∷ []) (pos 5) ≡ (first_state, ok (once ∷ []))
unfolding record_access record_loop get parse_stats accessed commit_with lookup written BTreeMap.get
first_access = refl

get-record_access_example :
    (old : Option AccessStats) × (get engine plain 1 [] once.node_id ≡ ok old)
    × (once.access_count ≡ min (suc (count_of old)) usize_max)
    × (once.last_accessed_at_ms ≡ time_of old (pos 5))
    × (get engine plain 1 first_state once.node_id ≡ ok (some once))
get-record_access_example =
    get-record_access engine laws plain plain-IsFaithful 1 [] first_state (7 ∷ []) (pos 5)
      (once ∷ []) once (omega arith) (omega arith, tt) tt first_access (0, refl)

abbrev two_counters : List Write
two_counters = insert part_access (access_key 1 8) (8 ∷ 4 ∷ 0 ∷ 9 ∷ []) ∷ first_state

abbrev moved : AccessStats
moved = record { node_id = 7; access_count = 5; last_accessed_at_ms = pos 9 }

abbrev merged_state : List Write
merged_state =
    two_counters
    ++ insert part_access (access_key 1 7) (7 ∷ 5 ∷ 0 ∷ 9 ∷ [])
      ∷ remove part_access (access_key 1 8)
      ∷ []
