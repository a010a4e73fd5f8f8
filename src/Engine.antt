-- ===== src/Engine.antt =====
-- The storage engine that the stores of the repository open, a third-party crate: the calls that they
-- make of it, over an unknown state. A partition is known by its name.
pub mod Laws
pub mod Maps
pub mod Memory
pub mod Commits
use mmdb.Common.{String, List, Option, ◌≡◌}
use mmdb.Common.Bytes.{Bytes}
use mmdb.Errors.{Error, Result, ok, err}

-- What a call of third-party code returns: an answer, or the text of its error.
pub data Reply {ℓ} (A : Type ℓ) : Type ℓ where
  done : A → Reply A
  failed : String → Reply A

-- `.map_err(|error| Error::Storage(error.to_string()))`
abbrev pub storage {ℓ} : {A : Type ℓ} → Reply A → Result A
storage (done a) = ok a
storage (failed text) = err (Error.storage text)

-- `?` on a result of the serialization library.
abbrev pub json {ℓ} : {A : Type ℓ} → Reply A → Result A
json (done a) = ok a
json (failed text) = err (Error.json text)

-- One write of a batch.
pub data Write : Type 0 where
  insert : String → Bytes → Bytes → Write
  remove : String → Bytes → Write

-- A point read, the iterators in the order of the keys, whose items may fail, and the commit of a
-- batch, which may fail.
pub record Engine : Type 1 where
  pub State : Type 0
  pub get : State → String → Bytes → Reply {0} (Option Bytes)
  pub prefix : State → String → Bytes → List (Reply {0} (Bytes × Bytes))
  pub range_from : State → String → Bytes → List (Reply {0} (Bytes × Bytes))
  pub range : State → String → Bytes → Bytes → List (Reply {0} (Bytes × Bytes))
  -- `persist`, which brings what is written to the medium.
  pub persist : State → Reply {0} Unit
  pub commit : State → List Write → State × Reply {0} Unit

pub json-ok {ℓ} : {A : Type ℓ} (r : Reply A) (a : A) → json r ≡ ok a → r ≡ done a
json-ok (done b) a e = cc
json-ok (failed text) a e = cc

pub storage-ok {ℓ} : {A : Type ℓ} (r : Reply A) (a : A) → storage r ≡ ok a → r ≡ done a
storage-ok (done b) a e = cc
storage-ok (failed text) a e = cc
