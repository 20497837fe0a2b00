-- ===== src/Facts/Apply/Heads.antt =====
-- The current facts of a store by the identifiers of their records, and what the scans over them say.
use memory.Prelude.{
  ℕ, ◌≡◌, ◌≢◌, refl, Bool, true, false, Option, none, some, List, [], ◌∷◌, inl, inr, arith,
  if◌then◌else◌, nat_eq_iff, Bool-cases,
}
use memory.Prelude.Result.{ok}
use memory.Text.Bytes.{Str, str_eq, str_eq_iff}
use memory.Facts.{Condition}
use memory.Facts.Store.{
  RecordStatus, Metadata, SemanticRecord, SemanticRevision, FactStore, find_record, find_revision,
  head_fact, conditions_eq,
}
use memory.Facts.Lifecycle.{scan_heads, any_head}
use memory.Facts.Apply.{update_record}

abbrev pub with_fact : SemanticRecord → Option Metadata → Option (SemanticRecord × Metadata)
with_fact r none = none
with_fact r (some m) = some (r, m)

abbrev pub head_of :
    List SemanticRevision → Option SemanticRecord → Option (SemanticRecord × Metadata)
head_of revisions none = none
head_of revisions (some r) = with_fact r (head_fact revisions r)

-- The record with an identifier, and its current metadata if it has any.
unfoldable pub head : FactStore → Str → Option (SemanticRecord × Metadata)
head s id = head_of s.revisions (find_record id s.records)

pub str_eq_refl : (a : Str) → str_eq a a ≡ true
str_eq_refl a = (str_eq_iff a a).1 refl

pub str_eq_other : (a b : Str) → a ≢ b → str_eq a b ≡ false
str_eq_other a b n = elim (Bool-cases (str_eq a b)) [
  | inl e ↦ absurd (n ((str_eq_iff a b).0 e))
  | inr e ↦ e
]

pub conditions_eq_refl : (cs : List Condition) → conditions_eq cs cs ≡ true
unfolding conditions_eq
conditions_eq_refl [] = refl
conditions_eq_refl (c ∷ cs) =
    ground (arith, str_eq_refl c.key, str_eq_refl c.value, conditions_eq_refl cs)

pub find_record-id :
    (id : Str) (rs : List SemanticRecord) (r : SemanticRecord)
    → find_record id rs ≡ some r
    → r.record_id ≡ id
unfolding find_record
find_record-id id [] r h = absurd (cc (h))
find_record-id id (x ∷ rs) r h = ground (arith, find_record-id id rs r, str_eq_iff x.record_id id)

pub any_head-false :
    (joined : SemanticRecord → Bool) (test : Metadata → Bool) (revisions : List SemanticRevision)
    (rs : List SemanticRecord) (id : Str) (r : SemanticRecord) (m : Metadata)
    → any_head joined test revisions rs ≡ false
    → find_record id rs ≡ some r
    → head_fact revisions r ≡ some m
    → joined r ≡ true
    → test m ≡ false
unfolding any_head find_record
any_head-false joined test revisions [] id r m h e f g = absurd (cc (e))
any_head-false joined test revisions (x ∷ rs) id r m h e f g =
    ground (arith, any_head-false joined test revisions rs id r m)

pub scan_heads-false :
    (joined : SemanticRecord → Bool) (test : Metadata → Bool) (revisions : List SemanticRevision)
    (rs : List SemanticRecord) (id : Str) (r : SemanticRecord) (m : Metadata)
    → scan_heads joined test revisions rs ≡ ok false
    → find_record id rs ≡ some r
    → head_fact revisions r ≡ some m
    → joined r ≡ true
    → test m ≡ false
unfolding scan_heads find_record head_fact
scan_heads-false joined test revisions [] id r m h e f g = absurd (cc (e))
scan_heads-false joined test revisions (x ∷ rs) id r m h e f g =
    ground (arith, scan_heads-false joined test revisions rs id r m)

abbrev pub moved : ℕ → RecordStatus → Option SemanticRecord → Option SemanticRecord
moved revision status none = none
moved revision status (some r) = some (record r { current_revision = revision; status = status })

pub find_record-update_record :
    (id j : Str) (revision : ℕ) (status : RecordStatus) (rs : List SemanticRecord)
    → find_record j (update_record id revision status rs)
      ≡ (if str_eq id j then moved revision status (find_record j rs) else find_record j rs)
unfolding find_record update_record
find_record-update_record id j revision status [] = ground arith
find_record-update_record id j revision status (r ∷ rs) = ground (
  arith,
  find_record-update_record id j revision status rs,
  str_eq_iff r.record_id id,
  str_eq_iff r.record_id j,
  str_eq_iff id j,
)

-- A new revision is that of no other record.
pub head_fact-other :
    (v : SemanticRevision) (vs : List SemanticRevision) (r : SemanticRecord)
    → v.record_id ≢ r.record_id
    → head_fact (v ∷ vs) r ≡ head_fact vs r
unfolding head_fact find_revision
head_fact-other v vs r n = rw (str_eq_other v.record_id r.record_id n) refl

pub head_fact-same :
    (v : SemanticRevision) (vs : List SemanticRevision) (r : SemanticRecord)
    → v.record_id ≡ r.record_id
    → v.revision ≡ r.current_revision
    → head_fact (v ∷ vs) r ≡ v.fact
unfolding head_fact find_revision
head_fact-same v vs r e f =
    rw ((str_eq_iff v.record_id r.record_id).1 e)
      (rw ((nat_eq_iff v.revision r.current_revision).1 f) refl)
