-- ===== src/Executor/Trace.antt =====
-- The breadth-first loop reaches everything within the depth: an account of the ids seen, each with
-- the hop at which it was, shows that the frontier never passes an edge over.
use mathlib.Core.Path.{subst}
use mmdb.Common.{
  ℕ, zero, suc, ◌+◌, ◌≤◌, ◌≡◌, refl, sym, ap, ◌⊎◌, inl, inr, Option, some, List, [], ◌∷◌, ◌++◌,
  true, false, arith, String, map, In, All, All-append, All-of_In, Bool-cases, str_eq, str_eq_iff,
}
use mmdb.Common.Sorted.{Sorted}
use mmdb.Ir.{Platform}
use mmdb.Executor.{Context, EdgeRecord, contains, other_relation}

abbrev pub Entry : Type 0
Entry = String × ℕ

pub In-cons {ℓ} : {A : Type ℓ} (x y : A) (xs : List A) → In x xs → In x (y ∷ xs)
In-cons x y xs m = (suc m.0, m.1)

In-append_left {ℓ} : {A : Type ℓ} (x : A) (xs ys : List A) → In x xs → In x (xs ++ ys)
In-append_left x [] ys (t, e) = cc
In-append_left x (y ∷ xs) ys (zero, e) = (0, e)
In-append_left x (y ∷ xs) ys (suc t, e) = In-cons x y (xs ++ ys) (In-append_left x xs ys (t, e))

In-append_last {ℓ} : {A : Type ℓ} (x : A) (xs : List A) → In x (xs ++ x ∷ [])
In-append_last x [] = (0, refl)
In-append_last x (y ∷ xs) = In-cons x y (xs ++ x ∷ []) (In-append_last x xs)

In-of_append_last {ℓ} :
    {A : Type ℓ} (x : A) (xs : List A) (z : A) → In x (xs ++ z ∷ []) → In x xs ⊎ (x ≡ z)
In-of_append_last x [] z (zero, e) = let same : z ≡ x = cc in inr (sym same)
In-of_append_last x [] z (suc t, e) = cc
In-of_append_last x (y ∷ xs) z (zero, e) = inl (0, e)
In-of_append_last x (y ∷ xs) z (suc t, e) = elim (In-of_append_last x xs z (t, e)) [
  | inl m ↦ inl (In-cons x y xs m)
  | inr same ↦ inr same
]

abbrev pub Hops : Entry → Entry → Type 0
Hops a b = a.1 ≤ b.1

Sorted-append_last :
    (xs : List Entry) (z : Entry)
    → Sorted Hops xs
    → All (λ x. Hops x z) xs
    → Sorted Hops (xs ++ z ∷ [])
Sorted-append_last [] z h k = (tt, tt)
Sorted-append_last (x ∷ xs) z h k =
    (All-append (Hops x) xs (z ∷ []) h.0 (k.0, tt), Sorted-append_last xs z h.1 k.1)

abbrev pub seen_ids : List Entry → List String
seen_ids trace = map (λ (q : Entry). q.0) trace

pub In-of_contains :
    (trace : List Entry) (id : String)
    → contains (seen_ids trace) id ≡ true
    → (k : ℕ) × In (id, k) trace
In-of_contains [] id h = cc
In-of_contains ((id', k) ∷ trace) id h = elim (Bool-cases (str_eq id id')) [
  | inl same ↦ (k, (0, ap some (ap (λ (i : String). (i, k)) (sym ((str_eq_iff id id').0 same)))))
  | inr other ↦
      let (k', m) = In-of_contains trace id (rw other at h) in
      (k', In-cons (id, k') (id', k) trace m)
]

module _ ⦃p : Platform⦄ (ctx : Context) (relation : Option String) (depth : ℕ) where
  -- The ends of the edges out of an id are seen, at the next hop at most.
  abbrev pub Reached : List Entry → EdgeRecord → ℕ → Type 0
  Reached trace edge hop = (k : ℕ) × (k ≤ hop + 1) × In (edge.dst, k) trace

  abbrev pub Follows : List Entry → List EdgeRecord → Entry → Type 0
  Follows trace edges q =
      (edge : EdgeRecord)
      → In edge edges
      → edge.src ≡ q.0
      → other_relation relation edge ≡ false
      → Reached trace edge q.1

  abbrev pub Processed : List Entry → Entry → Type 0
  Processed trace q = (depth ≤ q.1) ⊎ Follows trace ctx.edges q

  abbrev pub Extends : List Entry → List Entry → Type 0
  Extends trace trace' = (q : Entry) → In q trace → In q trace'

  pub Processed-Extends :
      (trace trace' : List Entry) (q : Entry)
      → Extends trace trace'
      → Processed trace q
      → Processed trace' q
  Processed-Extends trace trace' q more (inl deep) = inl deep
  Processed-Extends trace trace' q more (inr all_seen) = inr (λ edge m from rel.
      let (k, le, at) = all_seen edge m from rel in (k, le, more (edge.dst, k) at))

  -- The account while the edges out of `here` are visited.
  pub record Open (frontier : List Entry) (local_seen : List String) (trace : List Entry)
      (here : Entry) : Type 0 where
    pub seen : local_seen ≡ seen_ids trace
    pub queued : (q : Entry) → In q frontier → In q trace
    pub settled : (q : Entry) → In q trace → (q ≡ here) ⊎ (In q frontier ⊎ Processed trace q)
    pub sorted : Sorted Hops frontier
    pub later : (q : Entry) → In q frontier → here.1 ≤ q.1
    pub near : (q : Entry) → In q trace → q.1 ≤ here.1 + 1

  pub push-Open :
      (frontier : List Entry) (local_seen : List String) (trace : List Entry) (here : Entry)
      (id : String)
      → Open frontier local_seen trace here
      → Open (frontier ++ (id, here.1 + 1) ∷ []) (id ∷ local_seen) ((id, here.1 + 1) ∷ trace) here
  push-Open frontier local_seen trace here id o = record {
    seen = ap (λ l. id ∷ l) o.seen;
    queued = λ q m. elim (In-of_append_last q frontier new m) [
      | inl old ↦ In-cons q new trace (o.queued q old)
      | inr same ↦ (0, ap some (sym same))
    ];
    settled = settle;
    sorted =
        Sorted-append_last frontier new o.sorted
          (All-of_In (λ x. Hops x new) frontier (λ x m. o.near x (o.queued x m)));
    later = λ q m. elim (In-of_append_last q frontier new m) [
      | inl old ↦ o.later q old
      | inr same ↦ omega (arith, ap (λ (x : Entry). x.1) same)
    ];
    near = near';
  }
    where
      new : Entry
      new = (id, here.1 + 1)

      settle :
          (q : Entry)
          → In q (new ∷ trace)
          → (q ≡ here) ⊎ (In q (frontier ++ new ∷ []) ⊎ Processed (new ∷ trace) q)
      settle q (zero, e) =
          inr (
            inl (subst (λ x. In x (frontier ++ new ∷ [])) (new_is e) (In-append_last new frontier)))
        where
          new_is : some new ≡ some q → new ≡ q
          new_is h = cc
      settle q (suc t, e) = elim (o.settled q (t, e)) [
        | inl same ↦ inl same
        | inr (inl waiting) ↦ inr (inl (In-append_left q frontier (new ∷ []) waiting))
        | inr (inr done) ↦
            inr (inr (Processed-Extends trace (new ∷ trace) q (λ x m. In-cons x new trace m) done))
      ]

      near' : (q : Entry) → In q (new ∷ trace) → q.1 ≤ here.1 + 1
      near' q (zero, e) = let same : new ≡ q = cc in omega (arith, ap (λ (x : Entry). x.1) same)
      near' q (suc t, e) = o.near q (t, e)
