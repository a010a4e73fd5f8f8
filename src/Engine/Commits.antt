-- ===== src/Engine/Commits.antt =====
-- The end of an operation that writes: what it prepared is committed, and an earlier error writes
-- nothing.
use mmdb.Common.{◌≡◌, refl, sym, List, String}
use mmdb.Errors.{Error, Result, ok, err}
use mmdb.Engine.{Engine, Reply, done, failed, Write}
use mmdb.Engine.Laws.{IsLawful}

module _ (E : Engine) where
  -- A committed batch: the answer, or the engine's error.
  abbrev pub committed : {A : Type 0} → E.State × Reply {0} Unit → A → E.State × Result A
  committed (s, done _) a = (s, ok a)
  committed (s, failed text) a = (s, err (Error.storage text))

  -- The end of an operation: what it prepared is committed, and an earlier error writes nothing.
  unfoldable pub commit_with : {A : Type 0} → E.State → Result (List Write × A) → E.State × Result A
  commit_with s (err e) = (s, err e)
  commit_with s (ok (batch, a)) = committed (E.commit s batch) a

module _ (E : Engine) (L : IsLawful E) where
  pub commit_with-ok :
      {A : Type 0} (s s' : E.State) (r : Result (List Write × A)) (a : A)
      → commit_with E s r ≡ (s', ok a)
      → (batch : List Write) × (r ≡ ok (batch, a)) × (E.commit s batch ≡ (s', done tt))
  unfolding commit_with
  commit_with-ok s s' (err e) a h = cc
  commit_with-ok {A = A} s s' (ok (batch, b)) a h = go (E.commit s batch) refl h
    where
      go :
          (x : E.State × Reply {0} Unit)
          → E.commit s batch ≡ x
          → committed E x b ≡ (s', ok a)
          → (batch' : List Write) × ◌≡◌ {A = Result (List Write × A)}
              (ok (batch, b))
              (ok (batch', a))
            × (E.commit s batch' ≡ (s', done tt))
      go (t, done _) e k =
          let same : b ≡ a = cc in
          let state : t ≡ s' = cc in (batch, rw same refl, rw (sym state) e)
      go (t, failed text) e k = cc

  pub commit_with-err :
      {A : Type 0} (s s' : E.State) (r : Result (List Write × A)) (e : Error)
      → commit_with E s r ≡ (s', err e)
      → (p : String) → L.entries s' p ≡ L.entries s p
  unfolding commit_with
  commit_with-err s s' (err x) e h p = let state : s ≡ s' = cc in rw (sym state) refl
  commit_with-err s s' (ok (batch, b)) e h p = go (E.commit s batch) refl h
    where
      go :
          (x : E.State × Reply {0} Unit)
          → E.commit s batch ≡ x
          → committed E x b ≡ (s', err e)
          → L.entries s' p ≡ L.entries s p
      go (t, done _) q k = cc
      go (t, failed text) q k =
          let state : t ≡ s' = cc in rw (sym state) (L.commit-failed s t batch text q p)
