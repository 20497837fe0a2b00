-- ===== src/Facts/Apply/Unforked.antt =====
-- When the current facts of a scope clash, and the edits of `applyFactMutation` on a store where none do.
use memory.Prelude.{
  ◌≡◌, ◌≢◌, sym, ap, ◌∙◌, subst, true, false, some, [], ◌⊎◌, inl, inr, Bool-cases, some-injective,
}
use memory.Text.Bytes.{Str, str_eq, str_eq_iff}
use memory.Facts.Store.{Metadata, SemanticRecord, FactStore, is_active, is_confirmed, before}
use memory.Facts.Apply.Heads.{head}
use memory.Facts.Apply.Written.{Written}

-- A record with its current metadata.
abbrev pub Current : Type 0
Current = SemanticRecord × Metadata

-- Two active records of one Space, partition, subject and key, whose current facts are both confirmed.
pub record Rivals (p q : Current) : Type 0 where
  pub space : p.0.space_id ≡ q.0.space_id
  pub labels : p.0.label_set_digest ≡ q.0.label_set_digest
  pub subject : p.0.subject ≡ q.0.subject
  pub key : p.0.fact_key ≡ q.0.fact_key
  pub active_left : is_active p.0.status ≡ true
  pub active_right : is_active q.0.status ≡ true
  pub confirmed_left : is_confirmed p.1.adoption ≡ true
  pub confirmed_right : is_confirmed q.1.adoption ≡ true

-- They have a key, are no exceptions, and hold under the same conditions.
pub record Forks (p q : Current) : Type 0 where
  pub rivals : Rivals p q
  pub keyed : p.0.fact_key ≢ []
  pub plain_left : p.1.related_record_id ≡ []
  pub plain_right : q.1.related_record_id ≡ []
  pub conditions : p.1.conditions ≡ q.1.conditions

-- They are exceptions to the same fact, in intervals that meet.
pub record Overlap (p q : Current) : Type 0 where
  pub rivals : Rivals p q
  pub related : p.1.related_record_id ≡ q.1.related_record_id
  pub exceptional : p.1.related_record_id ≢ []
  pub begins_left : before p.1.valid_from q.1.valid_until ≡ true
  pub begins_right : before q.1.valid_from p.1.valid_until ≡ true

abbrev pub Clash : Current → Current → Type 0
Clash p q = Forks p q ⊎ Overlap p q

-- The columns of a record agree with its metadata, and no two current facts clash.
pub record IsFactStore (s : FactStore) : Type 0 where
  pub columns :
      (id : Str) (p : Current)
      → head s id ≡ some p
      → (p.0.subject ≡ p.1.subject) × (p.0.fact_key ≡ p.1.key)
  pub apart :
      (a b : Str) (p q : Current) → a ≢ b → head s a ≡ some p → head s b ≡ some q → Clash p q → ⊥

swap-Rivals : {p q : Current} → Rivals p q → Rivals q p
swap-Rivals r = record {
  space = sym r.space;
  labels = sym r.labels;
  subject = sym r.subject;
  key = sym r.key;
  active_left = r.active_right;
  active_right = r.active_left;
  confirmed_left = r.confirmed_right;
  confirmed_right = r.confirmed_left;
}

swap-Clash : (p q : Current) → Clash p q → Clash q p
swap-Clash p q (inl f) = inl (record {
  rivals = swap-Rivals f.rivals;
  keyed = λ e. f.keyed (f.rivals.key ∙ e);
  plain_left = f.plain_right;
  plain_right = f.plain_left;
  conditions = sym f.conditions;
})
swap-Clash p q (inr o) = inr (record {
  rivals = swap-Rivals o.rivals;
  related = sym o.related;
  exceptional = λ e. o.exceptional (o.related ∙ e);
  begins_left = o.begins_right;
  begins_right = o.begins_left;
})

-- A fact that agrees with its columns and clashes with no other may be written.
pub Written-IsFactStore :
    (s s' : FactStore) (id : Str) (row : SemanticRecord) (meta : Metadata)
    → IsFactStore s
    → Written s s' id row meta
    → (row.subject ≡ meta.subject) × (row.fact_key ≡ meta.key)
    → ((j : Str) (q : Current) → id ≢ j → head s j ≡ some q → Clash (row, meta) q → ⊥)
    → IsFactStore s'
Written-IsFactStore s s' id row meta v w agree clear = record {
  columns = λ j p e. elim (Bool-cases (str_eq id j)) [
    | inl same ↦
        subst (λ (x : Current). (x.0.subject ≡ x.1.subject) × (x.0.fact_key ≡ x.1.key))
          (here j p same e) agree
    | inr other ↦ v.columns j p (sym (w.others j (different j other)) ∙ e)
  ];
  apart = λ a b p q n ea eb clash. elim (Bool-cases (str_eq id a)) [
    | inl left ↦
        clear b q (λ h. n (sym ((str_eq_iff id a).0 left) ∙ h))
          (sym (w.others b (λ h. n (sym ((str_eq_iff id a).0 left) ∙ h))) ∙ eb)
          (subst (λ x. Clash x q) (sym (here a p left ea)) clash)
    | inr other ↦ elim (Bool-cases (str_eq id b)) [
      | inl right ↦
          clear a p (different a other) (sym (w.others a (different a other)) ∙ ea)
            (subst (λ x. Clash x p) (sym (here b q right eb)) (swap-Clash p q clash))
      | inr other' ↦
          v.apart a b p q n (sym (w.others a (different a other)) ∙ ea)
            (sym (w.others b (different b other')) ∙ eb) clash
    ]
  ];
}
  where
    different : (j : Str) → str_eq id j ≡ false → id ≢ j
    different j h e = cc (h, (str_eq_iff id j).1 e)

    here : (j : Str) (p : Current) → str_eq id j ≡ true → head s' j ≡ some p → (row, meta) ≡ p
    here j p h e = some-injective (sym w.now ∙ ap (head s') ((str_eq_iff id j).0 h) ∙ e)
