-- ===== src/GraphStore/Tests.antt =====
-- The theorems on the graph store at a store in memory, with edges that carry a number.
use mmdb.Common.{ℕ, none, some, List, [], ◌∷◌, ◌≡◌, refl, arith, inl, inr, In}
use mmdb.Common.Bytes.{Bytes}
use mmdb.Common.BTreeMap as BTreeMap
use mmdb.Errors.{ok}
use mmdb.Engine.{Engine, Reply, done, failed, Write}
use mmdb.Engine.Laws.{IsLawful, written}
use mmdb.Engine.Maps.{lookup}
use mmdb.Engine.Memory.{memory_engine, memory_engine-IsLawful}
use mmdb.GraphStore.Edges.{
  Edge, EdgeSerde, part_out, add_batch, add_edge, neighbours_out, neighbours_in,
}
use mmdb.GraphStore.Paired.{Paired, Changes, no_change, added, Paired-Changes}
use mmdb.GraphStore.Neighbours.{IsGivenBack, IsStored, neighbours_out-add_edge}
use mmdb.GraphStore.Incoming.{neighbours_in-add_edge}

abbrev decode_edge : Bytes → Reply {0} (Edge ℕ)
decode_edge (src ∷ dst ∷ weight ∷ label) =
    done record { src = src; dst = dst; label = label; details = weight }
decode_edge _ = failed "not an edge"

abbrev weighted : EdgeSerde
weighted = record {
  Details = ℕ;
  encode = λ e. done (e.src ∷ e.dst ∷ e.details ∷ e.label);
  decode = decode_edge;
}

done_inj : {A : Type 0} {a b : A} → ◌≡◌ {A = Reply A} (done a) (done b) → a ≡ b
done_inj e = cc

weighted-IsGivenBack : (e : Edge ℕ) → IsGivenBack weighted e
weighted-IsGivenBack e bytes h = rw (← done_inj h) refl

abbrev engine : Engine
engine = memory_engine 10

abbrev laws : IsLawful engine
laws = memory_engine-IsLawful 10

abbrev knows : Edge ℕ
knows = record { src = 1; dst = 2; label = 107 ∷ []; details = 5 }

abbrev payload : Bytes
payload = 1 ∷ 2 ∷ 5 ∷ 107 ∷ []

abbrev first_state : List Write
first_state = add_batch engine weighted 3 knows payload

first_edge : add_edge engine weighted 3 [] knows ≡ (first_state, ok tt)
unfolding add_edge add_batch
first_edge = refl

empty-Paired : Paired engine laws weighted 3 []
unfolding written lookup BTreeMap.get
empty-Paired t s l d b = refl

empty-IsStored : IsStored engine laws weighted 3 (laws.entries [] part_out)
unfolding written lookup BTreeMap.get
empty-IsStored k v e = cc

abbrev one_change : Changes engine weighted 3 [] first_state
one_change = added knows (omega arith) (omega arith) first_edge no_change

Paired-Changes_example : Paired engine laws weighted 3 first_state
Paired-Changes_example =
    Paired-Changes engine laws weighted 3 [] first_state (omega arith) one_change empty-Paired

neighbours_out-add_edge_example :
    (es : List (Edge ℕ)) × (neighbours_out engine weighted 3 first_state 1 (some (107 ∷ []))
      ≡ ok es)
    × In knows es
neighbours_out-add_edge_example =
    neighbours_out-add_edge engine laws weighted 3 [] first_state knows (some (107 ∷ []))
      (omega arith) (omega arith) (omega arith) (weighted-IsGivenBack knows) empty-IsStored tt
      (inr refl) first_edge

neighbours_in-add_edge_example :
    (es : List (Edge ℕ)) × (neighbours_in engine weighted 3 first_state 2 none ≡ ok es)
    × In knows es
neighbours_in-add_edge_example =
    neighbours_in-add_edge engine laws weighted 3 [] first_state knows none (omega arith)
      (omega arith) (omega arith) (weighted-IsGivenBack knows) empty-IsStored tt (inl refl)
      first_edge
