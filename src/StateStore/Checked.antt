-- ===== src/StateStore/Checked.antt =====
-- What the checks of a batch establish before it is written.
use mmdb.Common.{ℕ, false, List, [], ◌∷◌, ◌≡◌, refl, sym, arith, Bool-cases, inl, inr, All}
use mmdb.Common.Bytes.{Bytes}
use mmdb.Errors.{ok, bind-ok}
use mmdb.Engine.{Engine}
use mmdb.Engine.Laws.{IsLawful}
use mmdb.StateStore.Keys.{state_key}
use mmdb.StateStore.Entry.{
  NamespacedStateMutation, Serde, Prepared, mutation_key, expected_revision, contains_key,
  check_revision,
}
use mmdb.StateStore.Writes.{get_stored, prepare_one, prepare}
use mmdb.StateStore.View.{IsFaithful, IsKept, view, get_stored-answers}

module _ (E : Engine) (L : IsLawful E) (C : Serde) (F : IsFaithful C) (tenant : ℕ) where
  -- The checks let `m` pass as `p`: its key is new in the batch, and the store's revision there is the
  -- one it expects.
  pub record IsPassed (s : E.State) (seen : List Bytes) (m : NamespacedStateMutation C.Value)
      (p : Prepared C.Value) : Type 0 where
    pub keyed : state_key tenant m.namespace (mutation_key m.mutation) ≡ ok p.storage_key
    pub fresh : contains_key p.storage_key seen ≡ false
    pub current-view : p.current ≡ view E L C tenant s p.storage_key
    pub expected : check_revision (expected_revision m.mutation) p.current ≡ ok tt
    pub mutation-eq : p.mutation ≡ m.mutation

  abbrev pub Passed :
      E.State
      → List Bytes
      → List (NamespacedStateMutation C.Value)
      → List (Prepared C.Value)
      → Type 0
  Passed s seen [] [] = Unit
  Passed s seen [] (p ∷ ps) = ⊥
  Passed s seen (m ∷ ms) [] = ⊥
  Passed s seen (m ∷ ms) (p ∷ ps) = IsPassed s seen m p × Passed s (p.storage_key ∷ seen) ms ps

  prepare_one-Passed :
      (s : E.State) (seen : List Bytes) (m : NamespacedStateMutation C.Value) (p : Prepared C.Value)
      → prepare_one E C tenant s seen m ≡ ok p
      → IsPassed s seen m p
  unfolding prepare_one
  prepare_one-Passed s seen m p e =
      let (key, keyed, e') =
        bind-ok (state_key tenant m.namespace (mutation_key m.mutation)) _ p e in
      elim (Bool-cases (contains_key key seen)) [
        | inl twice ↦ absurd (ground arith)
        | inr fresh ↦
            let e'' = bind-ok (get_stored E C tenant s key) _ p (rw fresh at e') in
            let (current, read, e3) = e'' in
            let (_, checked, e4) =
              bind-ok (check_revision (expected_revision m.mutation) current) _ p e3 in
            let made : record { storage_key = key; current = current; mutation = m.mutation } ≡ p =
              cc in
            let seen_as = get_stored-answers E L C tenant s key current read in
            rw (sym made) record {
              keyed = keyed;
              fresh = fresh;
              current-view = seen_as;
              expected = checked;
              mutation-eq = refl;
            }
      ]

  pub prepare-Passed :
      (s : E.State) (seen : List Bytes) (ms : List (NamespacedStateMutation C.Value))
      (ps : List (Prepared C.Value))
      → prepare E C tenant s seen ms ≡ ok ps
      → Passed s seen ms ps
  unfolding prepare
  prepare-Passed s seen [] ps e = let empty : [] ≡ ps = cc in rw (sym empty) tt
  prepare-Passed s seen (m ∷ ms) ps e =
      let (p, passed, e') = bind-ok (prepare_one E C tenant s seen m) _ ps e in
      let (rest, later, e'') = bind-ok (prepare E C tenant s (p.storage_key ∷ seen) ms) _ ps e' in
      let whole : p ∷ rest ≡ ps = cc in
      rw (sym whole) (
        prepare_one-Passed s seen m p passed,
        prepare-Passed s (p.storage_key ∷ seen) ms rest later,
      )

  pub Kept-Passed :
      (s : E.State) (seen : List Bytes) (ms : List (NamespacedStateMutation C.Value))
      (ps : List (Prepared C.Value))
      → All (λ m. IsKept F m.mutation) ms
      → Passed s seen ms ps
      → All (λ p. IsKept F p.mutation) ps
  Kept-Passed s seen [] [] kept h = tt
  Kept-Passed s seen [] (p ∷ ps) kept h = absurd h
  Kept-Passed s seen (m ∷ ms) [] kept h = absurd h
  Kept-Passed s seen (m ∷ ms) (p ∷ ps) (kept, kepts) (here, rest) =
      (rw here.mutation-eq kept, Kept-Passed s (p.storage_key ∷ seen) ms ps kepts rest)
