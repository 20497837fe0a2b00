-- ===== src/Appliance/Canonical.antt =====
-- The labels under which `authorize` of internal/appliance/config.go lets a call in, for rows of any content.
use memory.Prelude.{
  ◌≡◌, refl, sym, ap, ◌∙◌, subst, not, ◌||◌, Option, none, some, some-injective, [], inl, inr,
  arith, Bool-cases, Option-cases, ltb,
}
use memory.Prelude.Result.{ok, refuse, Gives-bind, ok-injective}
use memory.Text.Bytes.{Str, Str-eq, str_eq, str_eq_iff}
use memory.Labels.{LabelSet, LabelResult, canonical_label_set}
use memory.Reference.Types.{Operation, CallAuthorization}
use memory.Appliance.{
  Codec, CapabilityRow, Tables, AuthorizedView, ClockReadings, ApplianceError, select, require,
  stored_labels, decode_stored_label_set, check_grant, check_view_row, authorize,
  capability_unknown, capability_expired, invalid_label_set, stale_view,
}

-- The columns hold the encoding of what they are read as, and its digest.
pub record AreRead (codec : Codec) (encoded digest : Str) (labels : LabelSet) : Type 0 where
  pub parsed : LabelSet
  pub reads : codec.unmarshal encoded ≡ some parsed
  pub normal : canonical_label_set parsed ≡ LabelResult.ok labels
  pub same_encoding : encoded ≡ codec.marshal labels
  pub same_digest : digest ≡ codec.digest_string (codec.marshal labels)

decode-AreRead :
    (codec : Codec) (encoded digest : Str) (labels : LabelSet)
    → decode_stored_label_set codec encoded digest ≡ some labels
    → AreRead codec encoded digest labels
unfolding decode_stored_label_set
decode-AreRead codec encoded digest labels h = elim (Option-cases (codec.unmarshal encoded)) [
  | inl missing ↦ absurd (cc (rw missing at h))
  | inr (parsed, reads) ↦ normal parsed reads (canonical_label_set parsed) refl (rw reads at h)
]
  where
    normal :
        (parsed : LabelSet)
        → codec.unmarshal encoded ≡ some parsed
        → (r : LabelResult) → canonical_label_set parsed ≡ r
        → stored_labels codec encoded digest r ≡ some labels
        → AreRead codec encoded digest labels
    normal parsed reads (LabelResult.err e) c h = absurd (cc (h))
    normal parsed reads (LabelResult.ok canonical) c h =
        elim (Bool-cases (
          not (str_eq (codec.marshal canonical) encoded)
          || not (str_eq (codec.digest_string (codec.marshal canonical)) digest))) [
            | inl bad ↦ absurd (cc (rw bad at h))
            | inr good ↦
                let same : canonical ≡ labels = some-injective (rw good at h) in
                record {
                  parsed = parsed;
                  reads = reads;
                  normal = c ∙ ap LabelResult.ok same;
                  same_encoding =
                      sym ((str_eq_iff (codec.marshal canonical) encoded).0 (ground (arith, good)))
                      ∙ ap codec.marshal same;
                  same_digest =
                      sym (
                        (str_eq_iff (codec.digest_string (codec.marshal canonical)) digest).0
                          (ground (arith, good)))
                      ∙ ap (λ l. codec.digest_string (codec.marshal l)) same;
                }
          ]

-- The capability that the call names, and the labels of the View from its columns.
pub record Partitioned (codec : Codec) (t : Tables) (token : Str) (v : AuthorizedView)
    : Type 0 where
  pub row : CapabilityRow
  pub named :
      select (λ c. str_eq c.token_digest (codec.digest_bytes token)) t.capabilities ≡ some row
  pub labels : AreRead codec row.label_set row.label_set_digest v.labels
  pub encoded : v.label_set_encoded ≡ row.label_set
  pub digest : v.label_set_digest ≡ row.label_set_digest

require-eq-ok :
    {A : Type 0} (o : Option A) (e : ApplianceError) {a : A} → require o e ≡ ok a → o ≡ some a
require-eq-ok none e h = absurd (cc)
require-eq-ok (some a) e h = ground arith

module _ (codec : Codec) (at : ClockReadings) (t : Tables) (auth : CallAuthorization)
    (operation : Operation) where
  Q : AuthorizedView → Type 0
  Q v = Partitioned codec t auth.capability v

  -- A call that the appliance authorizes, for rows of any content, names a stored capability; the
  -- labels of the View are the canonical form of what is read from its columns, and the columns
  -- hold the encoding of those labels and its digest.
  pub authorize-Partitioned :
      (v : AuthorizedView)
      → authorize codec at t auth operation ≡ ok v
      → Partitioned codec t auth.capability v
  unfolding authorize Q
  authorize-Partitioned =
      let digest = codec.digest_bytes auth.capability in
      Gives-bind Q (refuse (str_eq auth.capability []) capability_unknown) _ λ _ _.
        Gives-bind Q
          (require (select (λ c. str_eq c.token_digest digest) t.capabilities) capability_unknown) _
          λ row named.
            Gives-bind Q (refuse (not (ltb at.for_capability row.expires_at)) capability_expired) _
              λ _ _.
                Gives-bind Q
                  (require (decode_stored_label_set codec row.label_set row.label_set_digest)
                    invalid_label_set)
                  _
                  λ labels decoded.
                    Gives-bind Q
                      (require (select (λ g. str_eq g.id row.grant_id) t.grants) capability_expired)
                      _
                      λ grant _.
                        Gives-bind Q (check_grant at.for_grant t auth operation digest row grant) _
                          λ _ _.
                            Gives-bind Q
                              (require (select (λ w. str_eq w.id grant.view_id) t.views) stale_view)
                              _
                              λ view _.
                                Gives-bind Q (check_view_row t auth operation row view) _ λ _ _.
                                  λ v made.
                                    let read =
                                      decode-AreRead codec row.label_set row.label_set_digest labels
                                        (require-eq-ok
                                          (decode_stored_label_set codec row.label_set
                                            row.label_set_digest)
                                          invalid_label_set decoded) in
                                    subst Q (ok-injective made) (record {
                                      row = row;
                                      named =
                                          require-eq-ok
                                            (select (λ c. str_eq c.token_digest digest)
                                              t.capabilities)
                                            capability_unknown named;
                                      labels = read;
                                      encoded = sym read.same_encoding;
                                      digest = sym read.same_digest;
                                    })
