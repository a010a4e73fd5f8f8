-- ===== src/StateStore/Numbers.antt =====
-- A serialization for tests: values are numbers, and the fields are written one after the other.
use mmdb.Common.{
  ℕ, zero, suc, ltb, ◌==◌, Bool, true, false, [], ◌∷◌, ◌≡◌, ◌≤◌, refl, sym, ap, ltb→ge, String,
  if◌then◌else◌, Bool-cases, inl, inr,
}
use mmdb.Common.Bytes.{Bytes}
use mmdb.Common.Int.{ℤ, pos, negsuc}
use mmdb.Words.{usize_max}
use mmdb.Engine.{Reply, done, failed}
use mmdb.StateStore.Entry.{StoredValue, Serde}
use mmdb.StateStore.View.{IsFaithful}

abbrev pub encode_time : ℤ → Bytes
encode_time (pos n) = 0 ∷ n ∷ []
encode_time (negsuc n) = 1 ∷ n ∷ []

abbrev pub decode_time : ℕ → ℕ → ℤ
decode_time zero n = pos n
decode_time (suc _) n = negsuc n

abbrev pub encode_flag : Bool → ℕ
encode_flag false = 0
encode_flag true = 1

abbrev pub encode_number : StoredValue ℕ → Reply Bytes
encode_number v =
    if ltb usize_max v.revision
    then failed "not a u64"
    else done (v.value ∷ v.revision ∷ encode_flag v.deleted ∷ encode_time v.updated_at_ms)

abbrev pub decode_number : Bytes → Reply {0} (StoredValue ℕ)
decode_number (value ∷ revision ∷ deleted ∷ sign ∷ time ∷ []) =
    if ltb usize_max revision
    then failed "not a u64"
    else done record {
      value = value;
      revision = revision;
      updated_at_ms = decode_time sign time;
      deleted = deleted == 1;
    }
decode_number _ = failed "not a stored value"

abbrev pub numbers : Serde
numbers = record { Value = ℕ; null = 0; encode = encode_number; decode = decode_number }

failed-done : {A : Type 0} {text : String} {a : A} → ◌≡◌ {A = Reply A} (failed text) (done a) → ⊥
failed-done e = cc

done_inj : {A : Type 0} {a b : A} → ◌≡◌ {A = Reply A} (done a) (done b) → a ≡ b
done_inj e = cc

decode-encode_fields :
    (value revision : ℕ) (time : ℤ) (deleted : Bool)
    → ltb usize_max revision ≡ false
    → decode_number (value ∷ revision ∷ encode_flag deleted ∷ encode_time time)
      ≡ done record { value = value; revision = revision; updated_at_ms = time; deleted = deleted }
decode-encode_fields value revision (pos n) true h = rw h refl
decode-encode_fields value revision (pos n) false h = rw h refl
decode-encode_fields value revision (negsuc n) true h = rw h refl
decode-encode_fields value revision (negsuc n) false h = rw h refl

pub decode-encode_number :
    (v : StoredValue ℕ) (bytes : Bytes)
    → encode_number v ≡ done bytes
    → decode_number bytes ≡ done v
decode-encode_number v bytes e = elim (Bool-cases (ltb usize_max v.revision)) [
  | inl large ↦ absurd (failed-done (rw large at e))
  | inr small ↦
      let same : v.value ∷ v.revision ∷ encode_flag v.deleted ∷ encode_time v.updated_at_ms
          ≡ bytes =
        done_inj (rw small at e) in
      rw (sym same) (decode-encode_fields v.value v.revision v.updated_at_ms v.deleted small)
]

pub revision-le_number :
    (v : StoredValue ℕ) (bytes : Bytes) → decode_number bytes ≡ done v → v.revision ≤ usize_max
revision-le_number v [] e = cc
revision-le_number v (a ∷ []) e = cc
revision-le_number v (a ∷ b ∷ []) e = cc
revision-le_number v (a ∷ b ∷ c ∷ []) e = cc
revision-le_number v (a ∷ b ∷ c ∷ d ∷ []) e = cc
revision-le_number v (a ∷ b ∷ c ∷ d ∷ f ∷ g ∷ bytes) e = cc
revision-le_number v (a ∷ b ∷ c ∷ d ∷ f ∷ []) e = elim (Bool-cases (ltb usize_max b)) [
  | inl large ↦ absurd (failed-done (rw large at e))
  | inr small ↦
      let same : record {
        value = a;
        revision = b;
        updated_at_ms = decode_time d f;
        deleted = c == 1;
      }
          ≡ v =
        done_inj (rw small at e) in
      let revision : b ≡ v.revision = ap (λ (w : StoredValue ℕ). w.revision) same in
      rw (sym revision) (ltb→ge usize_max b small)
]

abbrev pub numbers-IsFaithful : IsFaithful numbers
numbers-IsFaithful = record {
  Kept = λ _. Unit;
  null-Kept = tt;
  decode-encode = λ v bytes _. decode-encode_number v bytes;
  revision-le = revision-le_number;
}
