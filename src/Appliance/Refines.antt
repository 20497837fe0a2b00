-- ===== src/Appliance/Refines.antt =====
-- `authorize` of the appliance beside `authorizeLocked` of the reference service.
use memory.Prelude.{
  ℕ, ◌≡◌, refl, ap, Bool, not, ◌&&◌, ◌||◌, Option, none, some, List, [], ◌∷◌, ◌⊎◌, inl, inr, arith,
  ltb, Bool-cases,
}
use memory.Prelude.Map.{get}
use memory.Prelude.Result.{Result, ok, err}
use memory.Text.Bytes.{Str, Str-eq, str_eq}
use memory.Labels.{LabelSet}
use memory.Requests.{Time}
use memory.Reference.Types.{
  Audience, Audience-eq, audience_eq, is_private, SpaceClass, Operation, Operation-eq, operation_eq,
  contains_operation, contains_audience, Space, ViewDefinition, Grant, CapabilityState,
  CallAuthorization,
}
use memory.Reference.State.{Server}
use memory.Reference.Config.{not_private}
use memory.Reference.Authorize.{Decision, check_delegation, check_view, authorization}
use memory.Appliance.{
  Codec, SpaceRow, ViewRow, GrantRow, CapabilityRow, Tables, AuthorizedView, ApplianceError, select,
  exists, or_empty, is_private_space, check_grant, check_view_row, authorize,
}
use memory.Appliance.Stored.{
  HoldsSpaces, HoldsLabels, IsCodec, read-HoldsSpaces, decode-HoldsLabels,
}

-- Both are there and related, or neither is there.
abbrev pub Related {ℓ κ} :
    {A : Type ℓ} {B : Type κ} → (A → B → Type 0) → Option A → Option B → Type 0
Related R none none = Unit
Related R none (some b) = ⊥
Related R (some a) none = ⊥
Related R (some a) (some b) = R a b

pub record SameCapability (codec : Codec) (t : Tables) (token : Str) (row : CapabilityRow)
    (state : CapabilityState) : Type 0 where
  pub grant : row.grant_id ≡ state.grant_id
  pub principal : row.principal_ref ≡ state.principal_ref
  pub version : row.view_version ≡ state.view_version
  pub actor : row.actor_ref ≡ state.actor_ref
  pub audience : row.audience ≡ state.audience
  pub expiry : row.expires_at ≡ state.expires_at
  pub labels : HoldsLabels codec row.label_set row.label_set_digest state.labels
  pub operations :
      (operation : Operation)
      → exists
          (λ r. str_eq r.0 (codec.digest_bytes token) && operation_eq r.1 operation)
          t.capability_operations
        ≡ contains_operation state.operations operation

pub record SameGrant (t : Tables) (id : Str) (row : GrantRow) (grant : Grant) : Type 0 where
  pub principal : row.principal_ref ≡ grant.principal_ref
  pub actor : row.actor_ref ≡ grant.actor_ref
  pub view : row.view_id ≡ grant.view_ref
  pub expiry : row.expires_at ≡ grant.expires_at
  pub revoked : row.revoked ≡ grant.revoked
  pub operations :
      (operation : Operation)
      → exists (λ r. str_eq r.0 id && operation_eq r.1 operation) t.grant_operations
        ≡ contains_operation grant.allowed_operations operation
  pub audiences :
      (audience : Audience)
      → exists (λ r. str_eq r.0 id && audience_eq r.1 audience) t.grant_audiences
        ≡ contains_audience grant.allowed_audiences audience

pub record SameView (t : Tables) (id : Str) (row : ViewRow) (view : ViewDefinition) : Type 0 where
  pub version : row.version ≡ view.version
  pub write_space : or_empty row.write_space_id ≡ view.write_space_id
  pub disclosure : row.max_disclosure_class ≡ view.max_disclosure_class
  pub read_spaces : HoldsSpaces t.view_read_spaces id view.read_space_ids

abbrev pub SameClass : SpaceRow → Space → Type 0
SameClass row space = row.class ≡ space.class

-- The rows hold the authority of a server.
pub record Represents (codec : Codec) (t : Tables) (s : Server) : Type 0 where
  pub capabilities :
      (token : Str)
      → Related
          (SameCapability codec t token)
          (select (λ c. str_eq c.token_digest (codec.digest_bytes token)) t.capabilities)
          (get s.capabilities token)
  pub grants :
      (id : Str)
      → Related (SameGrant t id) (select (λ g. str_eq g.id id) t.grants) (get s.grants id)
  pub views :
      (id : Str) → Related (SameView t id) (select (λ v. str_eq v.id id) t.views) (get s.views id)
  pub spaces :
      (id : Str) → Related SameClass (select (λ x. str_eq x.id id) t.spaces) (get s.spaces id)

-- What a call that is authorized may touch.
pub record Access : Type 0 where
  pub version : ℕ
  pub read_space_ids : List Str
  pub write_space_id : Str
  pub max_disclosure_class : SpaceClass
  pub labels : LabelSet

abbrev pub appliance_access : Result ApplianceError AuthorizedView → Option Access
appliance_access (err e) = none
appliance_access (ok v) = some (record {
  version = v.version;
  read_space_ids = v.read_space_ids;
  write_space_id = v.write_space_id;
  max_disclosure_class = v.max_disclosure_class;
  labels = v.labels;
})

abbrev pub reference_access : Decision (ViewDefinition × LabelSet) → Option Access
reference_access (err e) = none
reference_access (ok (v, labels)) = some (record {
  version = v.version;
  read_space_ids = v.read_space_ids;
  write_space_id = v.write_space_id;
  max_disclosure_class = v.max_disclosure_class;
  labels = labels;
})

Related-cases {ℓ κ} :
    {A : Type ℓ} {B : Type κ} (R : A → B → Type 0) (o : Option A) (p : Option B)
    → Related R o p
    → ((o ≡ none) × (p ≡ none)) ⊎ ((a : A) × (b : B) × (o ≡ some a) × (p ≡ some b) × R a b)
Related-cases R none none h = inl (refl, refl)
Related-cases R none (some b) h = absurd h
Related-cases R (some a) none h = absurd h
Related-cases R (some a) (some b) h = inr (a, b, refl, refl, h)

str_eq_sym : (a b : Str) → str_eq a b ≡ str_eq b a
unfolding str_eq
str_eq_sym [] [] = refl
str_eq_sym [] (y ∷ b) = refl
str_eq_sym (x ∷ a) [] = refl
str_eq_sym (x ∷ a) (y ∷ b) = ground (arith, str_eq_sym a b)

module _ (codec : Codec) (laws : IsCodec codec) (t : Tables) (s : Server)
    (same : Represents codec t s) (capability_time grant_time : Time) (auth : CallAuthorization)
    (operation : Operation) where
  abbrev capability_row : Str → Option CapabilityRow
  capability_row token =
      select (λ c. str_eq c.token_digest (codec.digest_bytes token)) t.capabilities

  abbrev grant_row : Str → Option GrantRow
  grant_row id = select (λ g. str_eq g.id id) t.grants

  abbrev view_row : Str → Option ViewRow
  view_row id = select (λ v. str_eq v.id id) t.views

  abbrev space_row : Str → Option SpaceRow
  space_row id = select (λ x. str_eq x.id id) t.spaces

  private_space : (id : Str) → not (is_private_space (space_row id)) ≡ not_private (get s.spaces id)
  private_space id =
      elim (Related-cases SameClass (space_row id) (get s.spaces id) (same.spaces id)) [
        | inl (no_row, no_space) ↦ rw no_row (rw no_space refl)
        | inr (row, space, has_row, has_space, class) ↦
            rw has_row (rw has_space (ap (λ c. not (is_private c)) class))
      ]

  -- The reference's test of the grant and the capability.
  abbrev dead : Grant → CapabilityState → Bool
  dead grant state =
      grant.revoked
      || not (str_eq grant.principal_ref state.principal_ref)
      || not (ltb grant_time grant.expires_at)
      || not (ltb capability_time state.expires_at)

  -- Where the rows represent the authority of a server of the reference service, and the codec
  -- reads back the canonical labels that it wrote, a call is authorized by the appliance exactly
  -- when the reference service authorizes it, at the same readings of the clock, and then with
  -- the same version of the View, the same Spaces to read and to write, the same disclosure class
  -- and the same labels.
  pub authorize-refines :
      appliance_access (
        authorize codec
          (record { for_capability = capability_time; for_grant = grant_time })
          t
          auth
          operation)
      ≡ reference_access (
          authorization s
            (record { for_grant = grant_time; for_capability = capability_time })
            auth
            operation)
  unfolding authorize check_grant check_view_row authorization check_delegation check_view
  authorize-refines =
      elim (Related-cases (SameCapability codec t auth.capability) (capability_row auth.capability)
        (get s.capabilities auth.capability) (same.capabilities auth.capability)) [
          | inl (no_row, no_state) ↦ rw (no_row, no_state) (ground arith)
          | inr (row, state, has_row, has_state, c) ↦
              elim (Bool-cases (str_eq auth.capability [])) [
                | inl e ↦ rw (has_row, has_state, e) refl
                | inr e ↦
                    rw
                      (
                        has_row,
                        has_state,
                        e,
                        decode-HoldsLabels codec row.label_set row.label_set_digest state.labels
                            laws c.labels,
                        c.grant,
                        c.principal,
                        c.version,
                        c.actor,
                        c.audience,
                        c.expiry,
                        c.operations operation,
                      )
                      (elim (Related-cases (SameGrant t state.grant_id) (grant_row state.grant_id)
                        (get s.grants state.grant_id) (same.grants state.grant_id)) [
                          | inl (no_grant, no_granted) ↦ rw (no_grant, no_granted) (ground arith)
                          | inr (grant, granted, has_grant, has_granted, g) ↦
                              rw
                                (
                                  has_grant,
                                  has_granted,
                                  g.operations operation,
                                  g.audiences auth.audience,
                                  g.principal,
                                  g.actor,
                                  g.view,
                                  g.expiry,
                                  g.revoked,
                                )
                                (elim (Bool-cases (dead granted state)) [
                                  | inl e2 ↦ rw e2 (
                                      ground (
                                        arith,
                                        e2,
                                        str_eq_sym state.principal_ref granted.principal_ref,
                                      ))
                                  | inr e2 ↦
                                      rw e2
                                        (elim (Related-cases (SameView t granted.view_ref)
                                          (view_row granted.view_ref) (get s.views granted.view_ref)
                                          (same.views granted.view_ref)) [
                                            | inl (no_view, no_viewed) ↦
                                                rw (no_view, no_viewed) (ground (arith, e2))
                                            | inr (view, viewed, has_view, has_viewed, v) ↦
                                                rw
                                                  (
                                                    has_view,
                                                    has_viewed,
                                                    v.version,
                                                    v.write_space,
                                                    v.disclosure,
                                                    read-HoldsSpaces granted.view_ref t
                                                        viewed.read_space_ids v.read_spaces,
                                                    private_space viewed.write_space_id,
                                                  )
                                                  (ground (
                                                    arith,
                                                    e2,
                                                    str_eq_sym state.principal_ref
                                                        granted.principal_ref,
                                                  ))
                                          ])
                                ])
                        ])
              ]
        ]
